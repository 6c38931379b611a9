-- ===== src/HostLocal/Iter/Spots.antt =====
-- The cycle of positions that the iterator runs through: every address of every range in order,
-- with its range. `Linked` says that the moves of `Next` lead along a list of them.
use plugins.Prelude.{
  ℕ, ◌+◌, ◌%◌, ◌≡◌, refl, sym, ◌∙◌, List, [], ◌∷◌, ◌++◌, true, false, Option, none, some, length,
  get_elem?, if◌then◌else◌, Result, ok, err, arith, Option-cases, Bool-cases, inl, inr,
}
use plugins.Net.{Ip, slice, equal}
use plugins.Cidr.{next_ip}
use plugins.HostLocal.Types.{Error, Range, RangeSet, index_panic}
use plugins.HostLocal.Iter.{RangeIter, Visit, exhausted, visit, arrive, step}

pub record Spot : Type 0 where
  pub idx : ℕ
  pub range : Range
  pub ip : Ip

abbrev pub at : Spot → Ip → RangeIter
at p start = record { range_idx = p.idx; cur = some p.ip; start_ip = some start }

abbrev pub spot_start : ℕ → Option Range → Option Spot
spot_start i none = none
spot_start i (some r) = elim r.range_start [
  | none ↦ none
  | some a ↦ some (record { idx = i; range = r; ip = a })
]

-- The move of the cursor in `Next`, from an address in the range of an index.
unfoldable pub move : RangeSet → ℕ → Ip → Option Spot
unfolding equal
move rs i a = elim (get_elem? rs i) [
  | none ↦ none
  | some r ↦
      if equal a (slice r.range_end)
      then spot_start ((i + 1) % length rs) (get_elem? rs ((i + 1) % length rs))
      else some (record { idx = i; range = r; ip = next_ip a })
]

-- From an address the moves lead through the list, and then to the last spot.
abbrev pub Linked : RangeSet → ℕ → Ip → List Spot → Spot → Type 0
Linked rs i a [] z = move rs i a ≡ some z
Linked rs i a (q ∷ qs) z = (move rs i a ≡ some q) × Linked rs q.idx q.ip qs z

pub Linked-append :
    (rs : RangeSet) (i : ℕ) (a : Ip) (xs : List Spot) (q : Spot) (ys : List Spot) (z : Spot)
    → Linked rs i a xs q
    → Linked rs q.idx q.ip ys z
    → Linked rs i a (xs ++ q ∷ ys) z
Linked-append rs i a [] q ys z h k = (h, k)
Linked-append rs i a (x ∷ xs) q ys z h k = (h.0, Linked-append rs x.idx x.ip xs q ys z h.1 k)

pub Linked-split :
    (rs : RangeSet) (i : ℕ) (a : Ip) (xs : List Spot) (q : Spot) (ys : List Spot) (z : Spot)
    → Linked rs i a (xs ++ q ∷ ys) z
    → Linked rs i a xs q × Linked rs q.idx q.ip ys z
Linked-split rs i a [] q ys z h = (h.0, h.1)
Linked-split rs i a (x ∷ xs) q ys z h =
    let t = Linked-split rs x.idx x.ip xs q ys z h.1 in ((h.0, t.0), t.1)

-- One run of the body of `Next` makes the move, and goes on from the spot that it leads to.
abbrev enter : ℕ → Option Ip → Option Range → Result Error Visit
enter j start none = err index_panic
enter j start (some r) =
    ok (arrive r (record { range_idx = j; cur = r.range_start; start_ip = start }))

enter-spot_start :
    (j : ℕ) (start : Option Ip) (o : Option Range) (q : Spot)
    → spot_start j o ≡ some q
    → enter j start o
      ≡ ok (arrive q.range (record { range_idx = q.idx; cur = some q.ip; start_ip = start }))
enter-spot_start j start none q h = cc
enter-spot_start j start (some r) q h = elim (Option-cases r.range_start) [
  | inl e ↦ ground arith
  | inr (a, e) ↦ ground arith
]

module _ (rs : RangeSet) (i : ℕ) (a : Ip) (r : Range) (here : get_elem? rs i ≡ some r) where
  abbrev after_idx : ℕ
  after_idx = (i + 1) % length rs

  pub move-wrap :
      equal a (slice r.range_end) ≡ true
      → move rs i a ≡ spot_start after_idx (get_elem? rs after_idx)
  unfolding move
  move-wrap b = rw (here, move) (rw b refl)

  pub move-inside :
      equal a (slice r.range_end) ≡ false
      → move rs i a ≡ some (record { idx = i; range = r; ip = next_ip a })
  unfolding move
  move-inside b = rw (here, move) (rw b refl)

  step-wrap :
      (start : Option Ip)
      → equal a (slice r.range_end) ≡ true
      → step rs (record { range_idx = i; cur = some a; start_ip = start })
        ≡ enter after_idx start (get_elem? rs after_idx)
  unfolding step
  step-wrap start b = rw (here, step) (rw b refl)

  step-inside :
      (start : Option Ip)
      → equal a (slice r.range_end) ≡ false
      → step rs (record { range_idx = i; cur = some a; start_ip = start })
        ≡ ok (arrive r (record { range_idx = i; cur = some (next_ip a); start_ip = start }))
  unfolding step
  step-inside start b = rw (here, step) (rw b refl)

  step-move_here :
      (start : Option Ip) (q : Spot)
      → move rs i a ≡ some q
      → step rs (record { range_idx = i; cur = some a; start_ip = start })
        ≡ ok (arrive q.range (record { range_idx = q.idx; cur = some q.ip; start_ip = start }))
  step-move_here start q h = elim (Bool-cases (equal a (slice r.range_end))) [
    | inl b ↦ step-wrap start b ∙ enter-spot_start after_idx start _ q (sym (move-wrap b) ∙ h)
    | inr b ↦
        let e : some (record { idx = i; range = r; ip = next_ip a }) ≡ some q =
          sym (move-inside b) ∙ h in
        step-inside start b ∙ cc
  ]

move_no_range :
    (rs : RangeSet) (i : ℕ) (a : Ip) (q : Spot) → get_elem? rs i ≡ none → ¬ (move rs i a ≡ some q)
unfolding move
move_no_range rs i a q e h = cc (rw (e, move) at h)

step-move :
    (rs : RangeSet) (i : ℕ) (a : Ip) (start : Option Ip) (q : Spot)
    → move rs i a ≡ some q
    → step rs (record { range_idx = i; cur = some a; start_ip = start })
      ≡ ok (arrive q.range (record { range_idx = q.idx; cur = some q.ip; start_ip = start }))
step-move rs i a start q h = elim (Option-cases (get_elem? rs i)) [
  | inl e ↦ absurd (move_no_range rs i a q e h)
  | inr (r, e) ↦ step-move_here rs i a r e start q h
]

-- The first address is visited whatever it is; after it comes the test against the start.
pub step-first :
    (rs : RangeSet) (i : ℕ) (a : Ip) (q : Spot)
    → move rs i a ≡ some q
    → step rs (record { range_idx = i; cur = some a; start_ip = none })
      ≡ ok (visit q.range (at q q.ip))
unfolding arrive
step-first rs i a q h = step-move rs i a none q h

pub step-again :
    (rs : RangeSet) (i : ℕ) (a start : Ip) (q : Spot)
    → move rs i a ≡ some q
    → equal q.ip start ≡ false
    → step rs (record { range_idx = i; cur = some a; start_ip = some start })
      ≡ ok (visit q.range (at q start))
unfolding arrive
step-again rs i a start q h e = step-move rs i a (some start) q h ∙ rw e refl

pub step-back :
    (rs : RangeSet) (i : ℕ) (a start : Ip) (q : Spot)
    → move rs i a ≡ some q
    → equal q.ip start ≡ true
    → step rs (record { range_idx = i; cur = some a; start_ip = some start })
      ≡ ok (exhausted (at q start))
unfolding arrive
step-back rs i a start q h e = step-move rs i a (some start) q h ∙ rw e refl
