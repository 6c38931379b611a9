-- ===== src/HostLocal/Iter/Round.antt =====
-- One round over a pool, from its first address or from any other: the walk of the iterator that
-- `GetIter` makes visits every address of the pool once.
use plugins.Prelude.{
  ℕ, suc, ◌+◌, ◌%◌, ◌<◌, ◌≡◌, refl, ◌∙◌, List, [], ◌∷◌, ◌++◌, true, false, none, some, length,
  get_elem?, All, arith, All-map, ok,
}
use mathlib.Core.List.{append-nil, append_assoc}
use native.Mathlib.Nat.{mod-eq_of_lt}
use plugins.Net.{Ip, slice, equal}
use plugins.Net.Facts.{equal_self}
use plugins.HostLocal.Types.{Range, RangeSet}
use plugins.HostLocal.Iter.{RangeIter, step, visit}
use plugins.HostLocal.Iter.Spots.{
  Spot, at, move, spot_start, Linked, Linked-append, Linked-split, step-first, step-again,
  step-back,
}
use plugins.HostLocal.Iter.Walk.{Walks}
use plugins.HostLocal.Iter.Pool.{
  IsSound, IsPool, later_spots, spots_at, spots_of-Linked, Differs, AllDiffer,
}
use plugins.HostLocal.Iter.Cycle.{
  AllDiffer-rotate, spots_at-AllDiffer, first_spot, IsPlain-low, width, length_low,
  spot_start-first_spot,
}

-- The ranges from an index on.
abbrev pub IsSuffix : RangeSet → ℕ → RangeSet → Type 0
IsSuffix rs i rest =
    ((k : ℕ) → get_elem? rs (i + k) ≡ get_elem? rest k) × (i + length rest ≡ length rs)

pub IsSuffix-tail :
    (rs : RangeSet) (i : ℕ) (r : Range) (rest : RangeSet)
    → IsSuffix rs i (r ∷ rest)
    → IsSuffix rs (i + 1) rest
IsSuffix-tail rs i r rest h =
    (λ k. let e : i + 1 + k ≡ i + suc k = omega arith in rw e (h.0 (suc k)), omega (arith, h.1))

pub IsSuffix-here :
    (rs : RangeSet) (i : ℕ) (r : Range) (rest : RangeSet)
    → IsSuffix rs i (r ∷ rest)
    → get_elem? rs i ≡ some r
IsSuffix-here rs i r rest h = let e : i + 0 ≡ i = omega arith in rw e at (h.0 0)

pub IsSuffix-whole : (rs : RangeSet) → IsSuffix rs 0 rs
IsSuffix-whole rs = (λ k. let e : 0 + k ≡ k = omega arith in rw e refl, omega arith)

mod_self : (n : ℕ) → 0 < n → n % n ≡ 0
mod_self n h = grind arith

module _ (rs : RangeSet) (z : Spot) (back : spot_start 0 (get_elem? rs 0) ≡ some z) where
  wrap_last :
      (i : ℕ)
      → 0 < length rs
      → i + 1 ≡ length rs
      → spot_start ((i + 1) % length rs) (get_elem? rs ((i + 1) % length rs)) ≡ some z
  wrap_last i p e = let m : (i + 1) % length rs ≡ 0 = rw e (mod_self (length rs) p) in rw m back

  wrap_inner :
      (i : ℕ) (q : Range)
      → i + 1 < length rs
      → get_elem? rs (i + 1) ≡ some q
      → IsSound q
      → spot_start ((i + 1) % length rs) (get_elem? rs ((i + 1) % length rs))
        ≡ some (first_spot (i + 1) q)
  wrap_inner i q l e s =
      let m : (i + 1) % length rs ≡ i + 1 = mod-eq_of_lt l in
      rw (m, e) (spot_start-first_spot (i + 1) q s)

  -- From the start of a range the moves lead through its other addresses, those of the ranges
  -- after it, and back to the first address of the set.
  pub spots_at-Linked :
      (i : ℕ) (r : Range) (rest : RangeSet)
      → IsSuffix rs i (r ∷ rest)
      → All IsSound (r ∷ rest)
      → Linked rs i (slice r.range_start) (later_spots i r ++ spots_at (i + 1) rest) z
  unfolding spots_at
  spots_at-Linked i r [] h s = rw append-nil (
      spots_of-Linked rs i r (IsSuffix-here rs i r [] h) s.0 z
        (wrap_last i (omega (arith, h.1)) (omega (arith, h.1))) _ _ (IsPlain-low i r s.0)
        (length_low i r s.0) (width i r s.0))
  spots_at-Linked i r (q ∷ rest) h s =
      Linked-append rs i (slice r.range_start) (later_spots i r) (first_spot (i + 1) q)
        (later_spots (i + 1) q ++ spots_at (i + 1 + 1) rest) z
        (spots_of-Linked rs i r (IsSuffix-here rs i r (q ∷ rest) h) s.0 (first_spot (i + 1) q)
          (wrap_inner i q (omega (arith, h.1))
            (IsSuffix-here rs (i + 1) q rest (IsSuffix-tail rs i r (q ∷ rest) h)) s.1.0)
          _ _ (IsPlain-low i r s.0) (length_low i r s.0) (width i r s.0))
        (spots_at-Linked (i + 1) q rest (IsSuffix-tail rs i r (q ∷ rest) h) s.1)

-- A linked list of addresses other than the start is walked, and at the start the iterator stops.
pub Linked-Walks :
    (rs : RangeSet) (start : Ip) (i : ℕ) (a : Ip) (qs : List Spot) (z : Spot)
    → Linked rs i a qs z
    → All (λ q. equal q.ip start ≡ false) qs
    → equal z.ip start ≡ true
    → Walks rs start (record { range_idx = i; cur = some a; start_ip = some start }) qs
Linked-Walks rs start i a [] z l d e = (at z start, step-back rs i a start z l e)
Linked-Walks rs start i a (q ∷ qs) z l d e =
    (step-again rs i a start q l.0 d.0, Linked-Walks rs start q.idx q.ip qs z l.1 d.1 e)

-- A list of spots whose moves lead through it and back to its head.
abbrev pub Loops : RangeSet → List Spot → Type 0
Loops rs [] = Unit
Loops rs (h ∷ tail) = Linked rs h.idx h.ip tail h

-- From any spot of a loop the moves lead around it and back.
round-Linked :
    (rs : RangeSet) (before after : List Spot) (p : Spot)
    → Loops rs (before ++ p ∷ after)
    → Linked rs p.idx p.ip (after ++ before) p
round-Linked rs [] after p l = rw append-nil l
round-Linked rs (b ∷ before) after p l =
    let t = Linked-split rs b.idx b.ip before p after b l in
    Linked-append rs p.idx p.ip after b before p t.1 t.0

-- The walk that begins with the move from a spot: the other spots of its loop, and last itself.
module _ (rs : RangeSet) (last : Ip) (p : Spot)
    (same_move : move rs p.idx last ≡ move rs p.idx p.ip) where
  abbrev resumed : RangeIter
  resumed = record { range_idx = p.idx; cur = some last; start_ip = none }

  resume-Walks :
      (ahead : List Spot)
      → Linked rs p.idx p.ip ahead p
      → AllDiffer (ahead ++ p ∷ [])
      → (start : Ip) × Walks rs start resumed (ahead ++ p ∷ [])
  resume-Walks [] l d = (
    p.ip,
    (
      step-first rs p.idx last p (same_move ∙ l),
      Linked-Walks rs p.ip p.idx p.ip [] p l tt (equal_self p.ip),
    ),
  )
  resume-Walks (q ∷ qs) l d = (
    q.ip,
    (
      step-first rs p.idx last q (same_move ∙ l.0),
      Linked-Walks rs q.ip q.idx q.ip (qs ++ p ∷ []) q
          (Linked-append rs q.idx q.ip qs p [] q l.1 l.0)
          (All-map (Differs q) _ (λ x (h : Differs q x). h.1) (qs ++ p ∷ []) d.0) (equal_self q.ip),
    ),
  )

  pub round-Walks :
      (before after : List Spot)
      → Loops rs (before ++ p ∷ after)
      → AllDiffer (before ++ p ∷ after)
      → (start : Ip) × Walks rs start resumed (after ++ before ++ p ∷ [])
  round-Walks before after l d = resume-Walks (after ++ before) (round-Linked rs before after p l) (
      rw (append_assoc after before (p ∷ []))
        (AllDiffer-rotate (before ++ p ∷ []) after (rw (append_assoc before (p ∷ []) after) d)))

step-fresh :
    (r : Range) (rest : RangeSet) (i : RangeIter)
    → IsSound r
    → i.range_idx ≡ 0
    → i.cur ≡ none
    → step (r ∷ rest) i ≡ ok (visit r (at (first_spot 0 r) (slice r.range_start)))
unfolding step
step-fresh r rest i s e c = ground (arith, s.has_start)

-- The whole cycle of a pool is such a loop.
pub spots_at-Loops : (rs : RangeSet) → IsPool rs → Loops rs (spots_at 0 rs)
unfolding spots_at
spots_at-Loops [] pool = tt
spots_at-Loops (r ∷ rest) pool =
    spots_at-Linked (r ∷ rest) (first_spot 0 r) (spot_start-first_spot 0 r pool.sound.0) 0 r rest
      (IsSuffix-whole (r ∷ rest)) pool.sound

-- The walk of an iterator that starts afresh visits the whole cycle.
pub fresh-Walks :
    (r : Range) (rest : RangeSet)
    → IsPool (r ∷ rest)
    → Walks
        (r ∷ rest)
        (slice r.range_start)
        (record { range_idx = 0; cur = none; start_ip = r.range_start })
        (spots_at 0 (r ∷ rest))
unfolding spots_at
fresh-Walks r rest pool =
    let d = spots_at-AllDiffer 0 (r ∷ rest) pool.sound pool.apart in
    (
      step-fresh r rest (record { range_idx = 0; cur = none; start_ip = r.range_start })
          pool.sound.0 refl refl,
      Linked-Walks (r ∷ rest) (slice r.range_start) 0 (slice r.range_start)
          (later_spots 0 r ++ spots_at 1 rest) (first_spot 0 r) (spots_at-Loops (r ∷ rest) pool)
          (All-map (Differs (first_spot 0 r)) _ (λ x (h : Differs (first_spot 0 r) x). h.1) _ d.0)
          (equal_self (slice r.range_start)),
    )
