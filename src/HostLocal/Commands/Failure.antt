-- ===== src/HostLocal/Commands/Failure.antt =====
-- A failed ADD: what the allocator and the command keep of the store when they return an error.
use plugins.Prelude.{
  ℕ, zero, suc, ◌+◌, ◌≡◌, refl, List, [], ◌∷◌, Bool, true, false, Option, none, some, Result, ok,
  err, Text, length, arith, any, if◌then◌else◌, ◌==◌, Bool-cases, inl, inr, itoa,
}
use plugins.Net.{Ip, slice, equal}
use plugins.HostLocal.Types.{Error, Range, RangeSet, no_addresses, requested_is_gateway}
use plugins.HostLocal.Range
use plugins.HostLocal.RangeSet
use plugins.HostLocal.Store.{Store}
use plugins.HostLocal.Iter.{Offer, RangeIter, offer_at, next, get_iter}
use plugins.HostLocal.Allocator.{
  IpAllocator, settle, granted, pool_size, try_next, get_any, get_requested, get,
}
use plugins.HostLocal.Allocator.RoundRobin.{get_any-already_allocated}
use plugins.HostLocal.Commands.{
  Requests, allocator, requested_ip, without_request, find_request, release_all, Added, prepend,
  after_get, finish, add_sets, cmd_add, requests,
}

-- The state after an error has the property.
abbrev pub KeepsOnError : {A S : Type 0} → (S → Type 0) → Result Error A × S → Type 0
KeepsOnError P (ok _, s) = Unit
KeepsOnError P (err e, s) = P s

-- What is asked of `reserve`: a call that does not reserve keeps the property.
abbrev pub KeepsUnlessReserved : {S : Type 0} → (S → Type 0) → Result Error Bool × S → Type 0
KeepsUnlessReserved P (ok true, s) = Unit
KeepsUnlessReserved P (ok false, s) = P s
KeepsUnlessReserved P (err e, s) = P s

module _ {S : Type 0} (P : S → Type 0) where
  settle-KeepsOnError :
      (o : Offer) (go : S → Result Error Offer × S) (res : Result Error Bool × S)
      → ((s : S) → P s → KeepsOnError P (go s))
      → KeepsUnlessReserved P res
      → KeepsOnError P (settle o go res)
  settle-KeepsOnError o go (err e, s) h k = k
  settle-KeepsOnError o go (ok true, s) h k = tt
  settle-KeepsOnError o go (ok false, s) h k = h s k

-- One round of the loop of `Get`, by what `Next` returns.
module _ {S : Type 0} (a : IpAllocator S) (id ifname : Text) (fuel rounds : ℕ) (i : RangeIter)
    (s : S) where
  try_next-err :
      (e : Error)
      → next fuel a.rangeset i ≡ err e
      → try_next a id ifname fuel (suc rounds) i s ≡ (err e, s)
  unfolding try_next
  try_next-err e n = rw (n, try_next) refl

  try_next-none :
      (j : RangeIter)
      → next fuel a.rangeset i ≡ ok (none, j)
      → try_next a id ifname fuel (suc rounds) i s ≡ (err no_addresses, s)
  unfolding try_next
  try_next-none j n = rw (n, try_next) refl

  try_next-some :
      (o : Offer) (j : RangeIter)
      → next fuel a.rangeset i ≡ ok (some o, j)
      → try_next a id ifname fuel (suc rounds) i s
        ≡ settle o
            (try_next a id ifname fuel rounds j)
            (a.store.reserve id ifname o.address.ip a.range_id s)
  unfolding try_next
  try_next-some o j n = rw (n, try_next) refl

-- `Get` with no requested address, by what `GetIter` returns.
module _ {S : Type 0} (a : IpAllocator S) (id ifname : Text) (s : S)
    (fresh : any (RangeSet.contains a.rangeset) (a.store.get_by_id id ifname s) ≡ false) where
  get_any-err :
      (e : Error)
      → get_iter a.store a.rangeset a.range_id s ≡ err e
      → get_any a id ifname s ≡ (err e, s)
  unfolding get_any
  get_any-err e n = rw fresh (rw n refl)

  get_any-ok :
      (i : RangeIter)
      → get_iter a.store a.rangeset a.range_id s ≡ ok i
      → get_any a id ifname s
        ≡ try_next a id ifname (pool_size a.rangeset + 2) (pool_size a.rangeset + 2) i s
  unfolding get_any
  get_any-ok i n = rw fresh (rw n refl)

-- `Get` with a requested address, by the results of its checks.
module _ {S : Type 0} (a : IpAllocator S) (id ifname : Text) (ip : Ip) (s : S) where
  get_requested-bad :
      (e : Error) → Range.canonicalize_ip ip ≡ err e → get_requested a id ifname ip s ≡ (err e, s)
  unfolding get_requested
  get_requested-bad e n = rw (n, get_requested) refl

  get_requested-outside :
      (c : Ip) (e : Error)
      → Range.canonicalize_ip ip ≡ ok c
      → RangeSet.range_for a.rangeset c ≡ err e
      → get_requested a id ifname ip s ≡ (err e, s)
  unfolding get_requested
  get_requested-outside c e n m = rw (n, get_requested) (rw m refl)

  get_requested-inside :
      (c : Ip) (r : Range)
      → Range.canonicalize_ip ip ≡ ok c
      → RangeSet.range_for a.rangeset c ≡ ok r
      → get_requested a id ifname ip s ≡ (
          if equal c (slice r.gateway)
          then (err requested_is_gateway, s)
          else granted (offer_at r c) (a.store.reserve id ifname c a.range_id s))
  unfolding get_requested
  get_requested-inside c r n m = rw (n, get_requested) (rw m refl)

granted-KeepsOnError :
    {S : Type 0} (P : S → Type 0) (o : Offer) (res : Result Error Bool × S)
    → KeepsUnlessReserved P res
    → KeepsOnError P (granted o res)
granted-KeepsOnError P o (err e, s) k = k
granted-KeepsOnError P o (ok false, s) k = k
granted-KeepsOnError P o (ok true, s) k = tt

module _ {S : Type 0} (P : S → Type 0) (a : IpAllocator S) (id ifname : Text)
    (keeps : (ip : Ip) (s : S)
      → P s
      → KeepsUnlessReserved P (a.store.reserve id ifname ip a.range_id s)) where
  try_next-KeepsOnError :
      (fuel rounds : ℕ) (i : RangeIter) (s : S)
      → P s
      → KeepsOnError P (try_next a id ifname fuel rounds i s)
  try_next-KeepsOnError fuel zero i s h = unfold try_next in h
  try_next-KeepsOnError fuel (suc rounds) i s h =
      go (next fuel a.rangeset i) refl (λ j s' p. try_next-KeepsOnError fuel rounds j s' p)
    where
      go :
          (r : Result Error (Option Offer × RangeIter))
          → next fuel a.rangeset i ≡ r
          → ((j : RangeIter) (s' : S)
              → P s'
              → KeepsOnError P (try_next a id ifname fuel rounds j s'))
          → KeepsOnError P (try_next a id ifname fuel (suc rounds) i s)
      go (err e) n ih = rw (try_next-err a id ifname fuel rounds i s e n) h
      go (ok (none, j)) n ih = rw (try_next-none a id ifname fuel rounds i s j n) h
      go (ok (some o, j)) n ih = rw (try_next-some a id ifname fuel rounds i s o j n) (
          settle-KeepsOnError P o (try_next a id ifname fuel rounds j)
            (a.store.reserve id ifname o.address.ip a.range_id s) (λ s' p. ih j s' p)
            (keeps o.address.ip s h))

  get_any-KeepsOnError : (s : S) → P s → KeepsOnError P (get_any a id ifname s)
  get_any-KeepsOnError s h =
      elim (Bool-cases (any (RangeSet.contains a.rangeset) (a.store.get_by_id id ifname s))) [
        | inl b ↦ rw (get_any-already_allocated a id ifname s b) h
        | inr b ↦ go b (get_iter a.store a.rangeset a.range_id s) refl
      ]
    where
      go :
          any (RangeSet.contains a.rangeset) (a.store.get_by_id id ifname s) ≡ false
          → (r : Result Error RangeIter) → get_iter a.store a.rangeset a.range_id s ≡ r
          → KeepsOnError P (get_any a id ifname s)
      go b (err e) n = rw (get_any-err a id ifname s b e n) h
      go b (ok i) n = rw (get_any-ok a id ifname s b i n) (try_next-KeepsOnError _ _ i s h)

  get_requested-KeepsOnError :
      (ip : Ip) (s : S) → P s → KeepsOnError P (get_requested a id ifname ip s)
  get_requested-KeepsOnError ip s h = go (Range.canonicalize_ip ip) refl
    where
      inside :
          (c : Ip) (r : Range)
          → Range.canonicalize_ip ip ≡ ok c
          → RangeSet.range_for a.rangeset c ≡ ok r
          → KeepsOnError P (get_requested a id ifname ip s)
      inside c r n m = elim (Bool-cases (equal c (slice r.gateway))) [
        | inl b ↦ rw (get_requested-inside a id ifname ip s c r n m) (rw b h)
        | inr b ↦
            rw (get_requested-inside a id ifname ip s c r n m)
              (rw b (granted-KeepsOnError P (offer_at r c) _ (keeps c s h)))
      ]

      found :
          (c : Ip) (r : Result Error Range)
          → Range.canonicalize_ip ip ≡ ok c
          → RangeSet.range_for a.rangeset c ≡ r
          → KeepsOnError P (get_requested a id ifname ip s)
      found c (err e) n m = rw (get_requested-outside a id ifname ip s c e n m) h
      found c (ok r) n m = inside c r n m

      go :
          (r : Result Error Ip)
          → Range.canonicalize_ip ip ≡ r
          → KeepsOnError P (get_requested a id ifname ip s)
      go (err e) n = rw (get_requested-bad a id ifname ip s e n) h
      go (ok c) n = found c (RangeSet.range_for a.rangeset c) n refl

  -- A `Get` that fails leaves a state with a property that a failed reservation keeps, if it began in
  -- one, with a requested address or with none.
  pub get-KeepsOnError : (req : Option Ip) (s : S) → P s → KeepsOnError P (get a id ifname req s)
  unfolding get
  get-KeepsOnError none s h = get_any-KeepsOnError s h
  get-KeepsOnError (some ip) s h = get_requested-KeepsOnError ip s h

-- A whole ADD. The property holds after an error: before any set has an address the allocator keeps
-- it, and later the releases of the error paths restore it.
module _ {S : Type 0} (P : S → Type 0) (store : Store S) (id ifname : Text)
    (shuffle : ℕ → Requests → Requests)
    (keeps : (ip : Ip) (range_id : Text) (s : S)
      → P s
      → KeepsUnlessReserved P (store.reserve id ifname ip range_id s))
    (restores : (s : S) → P (store.release_by_id id ifname s).1) where
  release_all-restores :
      (n : ℕ) (s : S) → (n ≡ 0 → P s) → P (release_all store id ifname shuffle n s)
  unfolding release_all
  release_all-restores zero s h = h refl
  release_all-restores (suc n) s h =
      release_all-restores n (store.release_by_id id ifname s).1 (λ _. restores s)

  after_get-KeepsOnError :
      (idx : ℕ) (go : S → Added store id ifname shuffle) (res : Result Error Offer × S)
      → (idx ≡ 0 → KeepsOnError P res)
      → ((s : S) → KeepsOnError P (go s))
      → KeepsOnError P (after_get store id ifname shuffle idx go res)
  after_get-KeepsOnError idx go (err e, s) h k = release_all-restores idx s h
  after_get-KeepsOnError idx go (ok o, s) h k = added (go s) (k s)
    where
      added :
          (res : Added store id ifname shuffle)
          → KeepsOnError P res
          → KeepsOnError P (prepend store id ifname shuffle o res)
      added (err e, s') p = p
      added (ok (os, left), s') p = tt

  add_sets-KeepsOnError :
      (idx : ℕ) (sets : List RangeSet) (reqs : Requests) (s : S)
      → (idx ≡ 0 → P s)
      → KeepsOnError P (add_sets store id ifname shuffle idx sets reqs s)
  unfolding add_sets
  add_sets-KeepsOnError idx [] reqs s h = tt
  add_sets-KeepsOnError idx (rs ∷ rest) reqs s h =
      let picked = find_request rs (shuffle idx reqs) in
      after_get-KeepsOnError idx _ _
        (λ z.
          get-KeepsOnError P (allocator store id ifname shuffle idx rs) id ifname
            (λ ip s' p. keeps ip (itoa idx) s' p) (requested_ip store id ifname shuffle picked) s
            (h z))
        (λ s'.
          add_sets-KeepsOnError (idx + 1) rest (without_request store id ifname shuffle picked reqs)
            s' (λ z. absurd (omega arith)))

  finish-KeepsOnError :
      (n : ℕ) (res : Added store id ifname shuffle)
      → (n ≡ 0 → P res.1)
      → KeepsOnError P res
      → KeepsOnError P (finish store id ifname shuffle n res)
  finish-KeepsOnError n (err e, s) h k = k
  finish-KeepsOnError n (ok (ips, left), s) h k = elim (Bool-cases (length left == 0)) [
    | inl b ↦ rw b tt
    | inr b ↦ rw b (release_all-restores n s h)
  ]

  -- An ADD that fails leaves a state with a property that a failed reservation keeps and a release
  -- restores, if it began in one.
  pub cmd_add-KeepsOnError :
      (ip_string : Ip → Text) (sets : List RangeSet) (ip_args : List Ip) (s : S)
      → P s
      → KeepsOnError P (cmd_add store id ifname shuffle ip_string sets ip_args s)
  unfolding cmd_add add_sets
  cmd_add-KeepsOnError ip_string [] ip_args s p =
      finish-KeepsOnError 0 (ok ([], requests ip_string [] ip_args), s) (λ _. p) tt
  cmd_add-KeepsOnError ip_string (rs ∷ sets) ip_args s p =
      finish-KeepsOnError (suc (length sets)) _ (λ z. absurd (omega arith))
        (add_sets-KeepsOnError 0 (rs ∷ sets) (requests ip_string [] ip_args) s (λ _. p))
