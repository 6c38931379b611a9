-- ===== src/HostLocal/Iter/Order.antt =====
-- The order in which `Get` tries the addresses of a pool: the cycle from its first address, or
-- from the address after the last reserved one around to that one.
use plugins.Prelude.{
  ℕ, ◌+◌, ◌-◌, ◌≡◌, refl, ap, sym, ◌∙◌, List, [], ◌∷◌, ◌++◌, true, false, Option, none, some,
  length, get_elem?, All, arith, Bool-cases, Option-cases, inl, inr, Result, ok, err,
}
use mathlib.Core.Path.{subst}
use plugins.Net.{Ip, slice, equal}
use plugins.Net.Facts.{IsBytes, equal_self}
use plugins.Cidr.{next_ip, ip_to_int}
use plugins.Cidr.Next.{IsPlain-IsCanonical}
use plugins.HostLocal.Types.{Error, Range, RangeSet}
use plugins.HostLocal.Range
use plugins.HostLocal.Range.Canonical.{
  canonicalize_ip-IsCanonical, canonicalize_ip_canonical, ip_to_int-canonicalize_ip,
  equal-canonicalize_ip,
}
use plugins.HostLocal.RangeSet
use plugins.HostLocal.Iter.{RangeIter, find_index, iter_from}
use plugins.HostLocal.Iter.Spots.{Spot, move}
use plugins.HostLocal.Iter.Walk.{Walks}
use plugins.HostLocal.Iter.Pool.{
  IsSound, IsPool, low, high, spot_at, later_spots, spots_at, AllDiffer,
}
use plugins.HostLocal.Iter.Cycle.{first_spot, IsPlain-low, width, length_low, spots_at-AllDiffer}
use plugins.HostLocal.Iter.Round.{
  IsSuffix, IsSuffix-here, IsSuffix-tail, IsSuffix-whole, Loops, spots_at-Loops, fresh-Walks,
  round-Walks,
}
use plugins.HostLocal.Iter.Resume.{
  IsIn, contains-IsIn, StandsIn, StandsIn-append_left, StandsIn-append_right, spots_of-StandsIn,
}

pub data IsOrder (rs : RangeSet) (last : Option Ip) : List Spot → Type 0 where
  from_first :
      ((a : Ip) → last ≡ some a → RangeSet.contains rs a ≡ false) → IsOrder rs last (spots_at 0 rs)
  from_last :
      (a : Ip) (p : Spot) (before after : List Spot)
      → last ≡ some a
      → equal a p.ip ≡ true
      → spots_at 0 rs ≡ before ++ p ∷ after
      → IsOrder rs last (after ++ before ++ p ∷ [])

some_inj : {A : Type 0} {a b : A} → some a ≡ some b → a ≡ b
some_inj e = cc

-- The range that `GetIter` finds, and the spot of the address in it.
record Located (rs : RangeSet) (a : Ip) (i : ℕ) (qs : List Spot) : Type 0 where
  range : Range
  here : get_elem? rs i ≡ some range
  sound : IsSound range
  inside : IsIn range a
  stands : StandsIn qs (spot_at i range inside.form)

range_StandsIn :
    (i : ℕ) (r : Range) (a : Ip) (s : IsSound r) (h : IsIn r a)
    → StandsIn (first_spot i r ∷ later_spots i r) (spot_at i r h.form)
range_StandsIn i r a s h =
    let e : slice r.range_end ≡ s.end = ap slice s.has_end in
    spots_of-StandsIn i r s.end h.form s.plain_end h.plain (h.one_length ∙ ap length e)
      (high r - low r) (ip_to_int h.form - low r) (slice r.range_start) (IsPlain-low i r s)
      (length_low i r s) (width i r s) (omega (arith, h.not_above)) (omega (arith, h.not_below))

find_index_here :
    (j : ℕ) (r : Range) (rest : RangeSet) (a : Ip)
    → Range.contains r a ≡ true
    → find_index j (r ∷ rest) a ≡ some j
unfolding find_index
find_index_here j r rest a h = rw h refl

find_index_later :
    (j : ℕ) (r : Range) (rest : RangeSet) (a : Ip)
    → Range.contains r a ≡ false
    → find_index j (r ∷ rest) a ≡ find_index (j + 1) rest a
unfolding find_index
find_index_later j r rest a h = rw h refl

Located-cons :
    (rs : RangeSet) (a : Ip) (i j : ℕ) (r : Range) (rest : RangeSet)
    → Located rs a i (spots_at (j + 1) rest)
    → Located rs a i (spots_at j (r ∷ rest))
unfolding spots_at
Located-cons rs a i j r rest t = record {
  range = t.range;
  here = t.here;
  sound = t.sound;
  inside = t.inside;
  stands =
      StandsIn-append_right (first_spot j r ∷ later_spots j r) (spots_at (j + 1) rest) _ t.stands;
}

Located-head :
    (rs : RangeSet) (a : Ip) (j : ℕ) (r : Range) (rest : RangeSet)
    → get_elem? rs j ≡ some r
    → IsSound r
    → IsIn r a
    → Located rs a j (spots_at j (r ∷ rest))
unfolding spots_at
Located-head rs a j r rest e s h = record {
  range = r;
  here = e;
  sound = s;
  inside = h;
  stands =
      StandsIn-append_left (first_spot j r ∷ later_spots j r) (spots_at (j + 1) rest) _
        (range_StandsIn j r a s h);
}

find_index-Located :
    (rs : RangeSet) (a : Ip) (i j : ℕ) (rest : RangeSet)
    → IsBytes a
    → IsSuffix rs j rest
    → All IsSound rest
    → find_index j rest a ≡ some i
    → Located rs a i (spots_at j rest)
find_index-Located rs a i j [] b h s e =
    let e' : ◌≡◌ {A = Option ℕ} none (some i) = unfold find_index in e in cc
find_index-Located rs a i j (r ∷ rest) b h s e = elim (Bool-cases (Range.contains r a)) [
  | inl c ↦
      let f : some j ≡ some i = sym (find_index_here j r rest a c) ∙ e in
      let same : i ≡ j = omega (arith, some_inj f) in
      rw same
        (Located-head rs a j r rest (IsSuffix-here rs j r rest h) s.0 (contains-IsIn r a s.0 b c))
  | inr c ↦ Located-cons rs a i j r rest (
      find_index-Located rs a i (j + 1) rest b (IsSuffix-tail rs j r rest h) s.1
        (sym (find_index_later j r rest a c) ∙ e))
]

-- `RangeSet.Contains` and the loop of `GetIter` agree.
contains_canonical_form :
    (r : Range) (a c : Ip)
    → Range.canonicalize_ip a ≡ ok c
    → Range.contains r a ≡ Range.contains r c
unfolding Range.contains
contains_canonical_form r a c e =
    let e' = canonicalize_ip_canonical c (canonicalize_ip-IsCanonical a c e) in
    rw (e, Range.contains) (rw (e', Range.contains) refl)

find_range-find_index :
    (j : ℕ) (rest : RangeSet) (a c : Ip)
    → Range.canonicalize_ip a ≡ ok c
    → find_index j rest a ≡ none
    → RangeSet.find_range rest c ≡ none
unfolding RangeSet.find_range
find_range-find_index j [] a c e h = refl
find_range-find_index j (r ∷ rest) a c e h = elim (Bool-cases (Range.contains r a)) [
  | inl t ↦ cc (sym (find_index_here j r rest a t) ∙ h)
  | inr f ↦
      rw (sym (contains_canonical_form r a c e) ∙ f)
        (find_range-find_index (j + 1) rest a c e (sym (find_index_later j r rest a f) ∙ h))
]

module _ (rs : RangeSet) (a : Ip) where
  not_contains_err :
      (x : Error) → Range.canonicalize_ip a ≡ err x → ¬ (RangeSet.contains rs a ≡ true)
  unfolding RangeSet.contains RangeSet.range_for
  not_contains_err x e h = cc (rw (e, RangeSet.contains, RangeSet.range_for) at h)

  not_contains-none :
      (c : Ip)
      → Range.canonicalize_ip a ≡ ok c
      → RangeSet.find_range rs c ≡ none
      → ¬ (RangeSet.contains rs a ≡ true)
  unfolding RangeSet.contains RangeSet.range_for
  not_contains-none c e f h = cc (rw f at (rw (e, RangeSet.contains, RangeSet.range_for) at h))

  not_contains :
      (o : Result Error Ip)
      → Range.canonicalize_ip a ≡ o
      → find_index 0 rs a ≡ none
      → ¬ (RangeSet.contains rs a ≡ true)
  not_contains (err x) e f = not_contains_err x e
  not_contains (ok c) e f = not_contains-none c e (find_range-find_index 0 rs a c e f)

  contains-find_index : RangeSet.contains rs a ≡ true → (i : ℕ) × (find_index 0 rs a ≡ some i)
  contains-find_index h = elim (Option-cases (find_index 0 rs a)) [
    | inr (i, e) ↦ (i, e)
    | inl e ↦ absurd (not_contains (Range.canonicalize_ip a) refl e h)
  ]

  move_form :
      (i : ℕ) (r : Range) (c : Ip)
      → get_elem? rs i ≡ some r
      → IsSound r
      → Range.canonicalize_ip a ≡ ok c
      → move rs i a ≡ move rs i c
  unfolding move
  move_form i r c here s e =
      let same : equal a (slice r.range_end) ≡ equal c (slice r.range_end) =
        rw s.has_end (equal-canonicalize_ip a c s.end e (IsPlain-IsCanonical s.plain_end)) in
      let next : next_ip a ≡ next_ip c =
        unfold next_ip in rw (ip_to_int-canonicalize_ip a c e) refl in
      rw (here, move) (rw (same, next) refl)

  iter_from_last :
      (i : ℕ)
      → RangeSet.contains rs a ≡ true
      → find_index 0 rs a ≡ some i
      → iter_from rs (some a) ≡ ok (record { range_idx = i; cur = some a; start_ip = none })
  unfolding iter_from
  iter_from_last i h e = rw (h, iter_from) (rw e refl)

iter_from_fresh :
    (r : Range) (rest : RangeSet) (a : Ip)
    → RangeSet.contains (r ∷ rest) a ≡ false
    → iter_from (r ∷ rest) (some a)
      ≡ ok (record { range_idx = 0; cur = none; start_ip = r.range_start })
unfolding iter_from
iter_from_fresh r rest a h = rw (h, iter_from) refl

-- An iterator that `GetIter` makes, and the order of the addresses that it will visit.
pub record Iteration (rs : RangeSet) (last : Option Ip) : Type 0 where
  pub iter : RangeIter
  pub start : Ip
  pub order : List Spot
  pub made : iter_from rs last ≡ ok iter
  pub is_order : IsOrder rs last order
  pub walks : Walks rs start iter order

Located-Iteration :
    (rs : RangeSet) (a : Ip) (i : ℕ)
    → IsPool rs
    → RangeSet.contains rs a ≡ true
    → find_index 0 rs a ≡ some i
    → Located rs a i (spots_at 0 rs)
    → Iteration rs (some a)
Located-Iteration rs a i pool h e t =
    let p = spot_at i t.range t.inside.form in
    let l : Loops rs (t.stands.before ++ p ∷ t.stands.after) =
      subst (Loops rs) t.stands.split (spots_at-Loops rs pool) in
    let d : AllDiffer (t.stands.before ++ p ∷ t.stands.after) =
      subst AllDiffer t.stands.split (spots_at-AllDiffer 0 rs pool.sound pool.apart) in
    let w =
      round-Walks rs a p (move_form rs a i t.range t.inside.form t.here t.sound t.inside.canonical)
        t.stands.before t.stands.after l d in
    record {
      iter = record { range_idx = i; cur = some a; start_ip = none };
      start = w.0;
      order = t.stands.after ++ t.stands.before ++ p ∷ [];
      made = iter_from_last rs a i h e;
      is_order =
          from_last a p t.stands.before t.stands.after refl
            (equal-canonicalize_ip a t.inside.form t.inside.form t.inside.canonical
                (IsPlain-IsCanonical t.inside.plain)
              ∙ equal_self t.inside.form)
            t.stands.split;
      walks = w.1;
    }

-- `GetIter` over a pool makes an iterator that visits the whole cycle, in one of the two orders.
pub iter_from-Iteration :
    (rs : RangeSet) (last : Option Ip)
    → IsPool rs
    → ((a : Ip) → last ≡ some a → IsBytes a)
    → Iteration rs last
iter_from-Iteration [] last pool b = absurd (omega (arith, pool.some_range))
iter_from-Iteration (r ∷ rest) none pool b = record {
  iter = record { range_idx = 0; cur = none; start_ip = r.range_start };
  start = slice r.range_start;
  order = spots_at 0 (r ∷ rest);
  made = unfold iter_from in refl;
  is_order = from_first (λ a e. cc);
  walks = fresh-Walks r rest pool;
}
iter_from-Iteration (r ∷ rest) (some a) pool b =
    elim (Bool-cases (RangeSet.contains (r ∷ rest) a)) [
      | inr h ↦ record {
        iter = record { range_idx = 0; cur = none; start_ip = r.range_start };
        start = slice r.range_start;
        order = spots_at 0 (r ∷ rest);
        made = iter_from_fresh r rest a h;
        is_order = from_first (λ a' e. rw (← some_inj e) h);
        walks = fresh-Walks r rest pool;
      }
      | inl h ↦
          let (i, e) = contains-find_index (r ∷ rest) a h in
          Located-Iteration (r ∷ rest) a i pool h e (
            find_index-Located (r ∷ rest) a i 0 (r ∷ rest) (b a refl) (IsSuffix-whole (r ∷ rest))
              pool.sound e)
    ]
