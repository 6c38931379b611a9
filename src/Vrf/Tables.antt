-- ===== src/Vrf/Tables.antt =====
-- The choice of a routing table in plugins/meta/vrf/vrf.go.
use plugins.Prelude.{
  ℕ, zero, suc, ◌+◌, ◌≤◌, ◌<◌, ◌≡◌, inl, inr, List, [], ◌∷◌, Bool, true, false, Result, ok, any,
  length, arith, ◌==◌, if◌then◌else◌, Bool-cases,
}
use plugins.Vrf.{VrfError}

abbrev pub is_taken : ℕ → List ℕ → Bool
is_taken id taken = any (λ t. t == id) taken

-- The numbers from one on, as many as given, are taken.
unfoldable pub AreTaken : ℕ → ℕ → List ℕ → Type 0
AreTaken low n taken = (i : ℕ) → low ≤ i → i < low + n → is_taken i taken ≡ true

abbrev without : ℕ → List ℕ → List ℕ
without n [] = []
without n (t ∷ taken) = let rest = without n taken in if t == n then rest else t ∷ rest

length-without_le : (n : ℕ) (taken : List ℕ) → length (without n taken) ≤ length taken
length-without_le n [] = omega arith
length-without_le n (t ∷ taken) = ground (arith, length-without_le n taken)

length-without :
    (n : ℕ) (taken : List ℕ) → is_taken n taken ≡ true → length (without n taken) < length taken
length-without n [] h = ground arith
length-without n (t ∷ taken) h = elim (Bool-cases (t == n)) [
  | inl e ↦ rw e (omega (arith, length-without_le n taken))
  | inr e ↦ rw e (omega (arith, length-without n taken (rw e at h)))
]

is_taken-without :
    (n i : ℕ) (taken : List ℕ)
    → (i == n) ≡ false
    → is_taken i taken ≡ true
    → is_taken i (without n taken) ≡ true
is_taken-without n i [] e h = h
is_taken-without n i (t ∷ taken) e h = ground (arith, is_taken-without n i taken e)

-- As many numbers do not stand in a shorter list.
pub AreTaken-length : (low n : ℕ) (taken : List ℕ) → AreTaken low n taken → n ≤ length taken
unfolding AreTaken
AreTaken-length low zero taken h = omega arith
AreTaken-length low (suc n) taken h =
    let last = length-without (low + n) taken (h (low + n) (omega arith) (omega arith)) in
    let rest = AreTaken-length low n (without (low + n) taken) λ i above below.
      is_taken-without (low + n) i taken (ground (arith, below))
        (h i above (omega (arith, below))) in
    omega (arith, last, rest)

-- The first number of a range that is not taken, if the list is shorter than the range.
IsFirst : ℕ → ℕ → List ℕ → Result VrfError ℕ → Type 0
IsFirst low n taken res =
    (id : ℕ) × (res ≡ ok id)
    × (low ≤ id)
    × (id < low + n)
    × (is_taken id taken ≡ false)
    × ((i : ℕ) → low ≤ i → i < id → is_taken i taken ≡ true)

pub is_taken_from :
    (low i : ℕ) (taken : List ℕ)
    → is_taken low taken ≡ true
    → low ≤ i
    → (low + 1 ≤ i → is_taken i taken ≡ true)
    → is_taken i taken ≡ true
is_taken_from low i taken e above rest = elim (Bool-cases (i == low)) [
  | inl f ↦ let same : i ≡ low = ground (arith, f) in rw same e
  | inr f ↦ rest (ground (arith, f, above))
]
