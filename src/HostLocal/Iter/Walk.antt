-- ===== src/HostLocal/Iter/Walk.antt =====
-- From the moves of the iterator to what `Next` returns and what the loop of `Get` tries: the
-- addresses ahead on the walk that are not their range's gateway, in order.
use plugins.Prelude.{
  ℕ, zero, suc, ◌≤◌, ◌<◌, ◌≡◌, refl, ap, sym, ◌∙◌, List, [], ◌∷◌, Bool, true, false, Option, none,
  some, length, if◌then◌else◌, Result, ok, err, All, arith, Bool-cases, inl, inr, Text,
}
use mathlib.Core.Path.{fun_ext}
use plugins.Net.{Ip, slice, equal}
use plugins.HostLocal.Types.{Error, RangeSet, no_addresses}
use plugins.HostLocal.Store.{Store}
use plugins.HostLocal.Iter.{RangeIter, Offer, offer_at, exhausted, visit, step, next}
use plugins.HostLocal.Iter.Spots.{Spot, at}
use plugins.HostLocal.Allocator.{IpAllocator, settle, try_next}

abbrev pub is_gateway : Spot → Bool
is_gateway q = equal q.ip (slice q.range.gateway)

-- The iterator, started at an address, will visit the spots in order and then give up.
abbrev pub Walks : RangeSet → Ip → RangeIter → List Spot → Type 0
Walks rs start i [] = (j : RangeIter) × (step rs i ≡ ok (exhausted j))
Walks rs start i (q ∷ qs) =
    (step rs i ≡ ok (visit q.range (at q start))) × Walks rs start (at q start) qs

-- The gateways at the head of the list are skipped.
unfoldable pub skip_gateways : List Spot → List Spot
skip_gateways [] = []
skip_gateways (q ∷ qs) = let rest = skip_gateways qs in if is_gateway q then rest else q ∷ qs

abbrev pub Answer : RangeSet → Ip → Result Error (Option Offer × RangeIter) → List Spot → Type 0
Answer rs start res [] = (j : RangeIter) × (res ≡ ok (none, j))
Answer rs start res (q ∷ qs) =
    (res ≡ ok (some (offer_at q.range q.ip), at q start)) × Walks rs start (at q start) qs

module _ (rs : RangeSet) (start : Ip) (fuel : ℕ) (i : RangeIter) (q : Spot)
    (visits : step rs i ≡ ok (visit q.range (at q start))) where
  next-skipped : is_gateway q ≡ true → next (suc fuel) rs i ≡ next fuel rs (at q start)
  unfolding next
  next-skipped g = rw (visits, next) (unfold visit in rw g refl)

  next-offered :
      is_gateway q ≡ false → next (suc fuel) rs i ≡ ok (some (offer_at q.range q.ip), at q start)
  unfolding next
  next-offered g = rw (visits, next) (unfold visit in rw g refl)

pub next-Answer :
    (rs : RangeSet) (start : Ip) (fuel : ℕ) (i : RangeIter) (qs : List Spot)
    → length qs < fuel
    → Walks rs start i qs
    → Answer rs start (next fuel rs i) (skip_gateways qs)
unfolding skip_gateways
next-Answer rs start zero i qs h w = absurd (omega arith)
next-Answer rs start (suc fuel) i [] h w = (w.0, unfold next in rw (w.1, next) refl)
next-Answer rs start (suc fuel) i (q ∷ qs) h w =
    go (next-Answer rs start fuel (at q start) qs (omega arith) w.1)
  where
    go :
        Answer rs start (next fuel rs (at q start)) (skip_gateways qs)
        → Answer rs start (next (suc fuel) rs i) (skip_gateways (q ∷ qs))
    go ih = elim (Bool-cases (is_gateway q)) [
      | inl g ↦ rw (g, next-skipped rs start fuel i q w.0 g) ih
      | inr g ↦ rw g (next-offered rs start fuel i q w.0 g, w.1)
    ]

-- What the loop of `Get` does, without the iterator: to reserve the first spot of a list that is
-- free and no gateway.
module _ {S : Type 0} (store : Store S) (id ifname range_id : Text) where
  unfoldable pub reserve_first : List Spot → S → Result Error Offer × S
  reserve_first [] s = (err no_addresses, s)
  reserve_first (q ∷ qs) s =
      let skip = reserve_first qs s in
      let attempt =
        settle (offer_at q.range q.ip) (reserve_first qs)
          (store.reserve id ifname q.ip range_id s) in
      if is_gateway q then skip else attempt

  pub reserve_first-gateway :
      (q : Spot) (qs : List Spot) (s : S)
      → is_gateway q ≡ true
      → reserve_first (q ∷ qs) s ≡ reserve_first qs s
  unfolding reserve_first
  reserve_first-gateway q qs s g = rw g refl

  pub reserve_first-attempt :
      (q : Spot) (qs : List Spot) (s : S)
      → is_gateway q ≡ false
      → reserve_first (q ∷ qs) s
        ≡ settle
            (offer_at q.range q.ip)
            (reserve_first qs)
            (store.reserve id ifname q.ip range_id s)
  unfolding reserve_first
  reserve_first-attempt q qs s g = rw g refl

skip_gateways-gateway :
    (q : Spot) (qs : List Spot) → is_gateway q ≡ true → skip_gateways (q ∷ qs) ≡ skip_gateways qs
unfolding skip_gateways
skip_gateways-gateway q qs g = rw g refl

skip_gateways-other :
    (q : Spot) (qs : List Spot) → is_gateway q ≡ false → skip_gateways (q ∷ qs) ≡ q ∷ qs
unfolding skip_gateways
skip_gateways-other q qs g = rw g refl

abbrev head_only : List Spot → List Spot
head_only [] = []
head_only (q ∷ qs) = q ∷ []

skip_gateways-head :
    (qs : List Spot) → All (λ q. is_gateway q ≡ false) (head_only (skip_gateways qs))
skip_gateways-head [] = unfold skip_gateways in tt
skip_gateways-head (q ∷ qs) = go (skip_gateways-head qs)
  where
    go :
        All (λ p. is_gateway p ≡ false) (head_only (skip_gateways qs))
        → All (λ p. is_gateway p ≡ false) (head_only (skip_gateways (q ∷ qs)))
    go ih = elim (Bool-cases (is_gateway q)) [
      | inl g ↦ rw (skip_gateways-gateway q qs g) ih
      | inr g ↦ rw (skip_gateways-other q qs g) (g, tt)
    ]

length-skip_gateways : (qs : List Spot) → length (skip_gateways qs) ≤ length qs
unfolding skip_gateways
length-skip_gateways [] = omega arith
length-skip_gateways (q ∷ qs) = ground (arith, length-skip_gateways qs)

reserve_first-skip_gateways :
    {S : Type 0} (store : Store S) (id ifname range_id : Text) (qs : List Spot) (s : S)
    → reserve_first store id ifname range_id qs s
      ≡ reserve_first store id ifname range_id (skip_gateways qs) s
reserve_first-skip_gateways store id ifname range_id [] s = unfold skip_gateways in refl
reserve_first-skip_gateways store id ifname range_id (q ∷ qs) s =
    go (reserve_first-skip_gateways store id ifname range_id qs s)
  where
    go :
        reserve_first store id ifname range_id qs s
          ≡ reserve_first store id ifname range_id (skip_gateways qs) s
        → reserve_first store id ifname range_id (q ∷ qs) s
          ≡ reserve_first store id ifname range_id (skip_gateways (q ∷ qs)) s
    go ih = elim (Bool-cases (is_gateway q)) [
      | inl g ↦
          rw (skip_gateways-gateway q qs g, reserve_first-gateway store id ifname range_id q qs s g)
            ih
      | inr g ↦ rw (skip_gateways-other q qs g) refl
    ]

-- The loop of `Get` over an iterator that will visit a list of spots is `reserve_first` of the
-- list, with fuel for each call of `Next` and rounds beyond the length of the list.
module _ {S : Type 0} (a : IpAllocator S) (id ifname : Text) (start : Ip) (fuel : ℕ) where
  abbrev Agrees : ℕ → Type 0
  Agrees rounds =
      (i : RangeIter) (qs : List Spot) (s : S)
      → length qs < fuel
      → length qs < rounds
      → Walks a.rangeset start i qs
      → try_next a id ifname fuel rounds i s ≡ reserve_first a.store id ifname a.range_id qs s

  try_next-Answer :
      (rounds : ℕ) (i : RangeIter) (ahead : List Spot) (s : S)
      → Agrees rounds
      → length ahead ≤ fuel
      → length ahead ≤ rounds
      → All (λ q. is_gateway q ≡ false) (head_only ahead)
      → Answer a.rangeset start (next fuel a.rangeset i) ahead
      → try_next a id ifname fuel (suc rounds) i s
        ≡ reserve_first a.store id ifname a.range_id ahead s
  unfolding try_next
  try_next-Answer rounds i [] s ih h k g ans = rw (ans.1, try_next) (unfold reserve_first in refl)
  try_next-Answer rounds i (q ∷ qs) s ih h k g ans =
      rw (ans.0, try_next)
        (ap (λ f. settle (offer_at q.range q.ip) f (a.store.reserve id ifname q.ip a.range_id s))
            (fun_ext λ s'. ih (at q start) qs s' (omega arith) (omega arith) ans.1)
          ∙ sym (reserve_first-attempt a.store id ifname a.range_id q qs s g.0))

  pub try_next-reserve_first : (rounds : ℕ) → Agrees rounds
  try_next-reserve_first zero i qs s h k w = absurd (omega arith)
  try_next-reserve_first (suc rounds) i qs s h k w =
      try_next-Answer rounds i (skip_gateways qs) s (try_next-reserve_first rounds)
        (omega (arith, length-skip_gateways qs)) (omega (arith, length-skip_gateways qs))
        (skip_gateways-head qs) (next-Answer a.rangeset start fuel i qs h w)
      ∙ sym (reserve_first-skip_gateways a.store id ifname a.range_id qs s)
