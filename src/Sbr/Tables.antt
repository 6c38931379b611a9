-- ===== src/Sbr/Tables.antt =====
-- The choice of a routing table in plugins/meta/sbr/main.go.
use plugins.Prelude.{
  ℕ, zero, suc, ◌+◌, ◌≤◌, ◌≡◌, ◌⊎◌, inl, inr, refl, ap, ◌∙◌, List, [], ◌∷◌, ◌++◌, map, false, ◌||◌,
  any, length, length-append, arith, ◌==◌, Bool-cases,
}
use plugins.Links.{NetRoute}
use plugins.Vrf.Tables.{is_taken, AreTaken, AreTaken-length, is_taken_from}
use plugins.Sbr.{Rule, is_used, next_from, get_next_table_id}

module _ (rules : List Rule) (routes : List NetRoute) where
  abbrev taken : List ℕ
  taken = map (λ (r : Rule). r.table) rules ++ map (λ (r : NetRoute). r.table) routes

  length-map : {A : Type 0} (f : A → ℕ) (xs : List A) → length (map f xs) ≡ length xs
  length-map f [] = refl
  length-map f (x ∷ xs) = omega (arith, length-map f xs)

  length-taken : length taken ≡ length rules + length routes
  length-taken =
      length-append (map (λ (r : Rule). r.table) rules) (map (λ (r : NetRoute). r.table) routes)
      ∙ rw (length-map (λ (r : Rule). r.table) rules, length-map (λ (r : NetRoute). r.table) routes)
          refl

  any-map :
      {A : Type 0} (f : A → ℕ) (t : ℕ) (xs : List A)
      → any (λ n. n == t) (map f xs) ≡ any (λ x. f x == t) xs
  any-map f t [] = refl
  any-map f t (x ∷ xs) = ap (λ b. (f x == t) || b) (any-map f t xs)

  is_taken-append :
      (t : ℕ) (xs ys : List ℕ) → is_taken t (xs ++ ys) ≡ (is_taken t xs || is_taken t ys)
  is_taken-append t [] ys = refl
  is_taken-append t (x ∷ xs) ys = ground (arith, is_taken-append t xs ys)

  is_taken-is_used : (t : ℕ) → is_taken t taken ≡ is_used rules routes t
  unfolding is_used
  is_taken-is_used t =
      is_taken-append t (map (λ (r : Rule). r.table) rules) (map (λ (r : NetRoute). r.table) routes)
      ∙ rw (any-map (λ (r : Rule). r.table) t rules, any-map (λ (r : NetRoute). r.table) t routes)
          refl

  next_from-cases :
      (n low : ℕ)
      → ((is_used rules routes (next_from n rules routes low) ≡ false)
          × (low ≤ next_from n rules routes low)
          × (next_from n rules routes low ≤ low + n))
        ⊎ AreTaken low (n + 1) taken
  unfolding next_from AreTaken
  next_from-cases zero low = elim (Bool-cases (is_used rules routes low)) [
    | inl e ↦ inr (λ i above below.
        let same : i ≡ low = omega (arith, above, below) in rw same (is_taken-is_used low ∙ e))
    | inr e ↦ inl (e, omega arith, omega arith)
  ]
  next_from-cases (suc n) low = elim (Bool-cases (is_used rules routes low)) [
    | inl e ↦ elim (next_from-cases n (low + 1)) [
      | inl (free, above, below) ↦ inl (rw e (free, omega (arith, above), omega (arith, below)))
      | inr all ↦ inr (λ i above below.
          is_taken_from low i taken (is_taken-is_used low ∙ e) above
            (λ next. all i next (omega (arith, below))))
    ]
    | inr e ↦ inl (rw e (e, omega arith, omega arith))
  ]

-- The table that getNextTableID returns is used by no rule and no route; it is the candidate or a
-- later one, by no more than there are rules and routes.
pub get_next_table_id-free :
    (rules : List Rule) (routes : List NetRoute) (candidate : ℕ)
    → (is_used rules routes (get_next_table_id rules routes candidate) ≡ false)
      × (candidate ≤ get_next_table_id rules routes candidate)
      × (get_next_table_id rules routes candidate ≤ candidate + (length rules + length routes))
unfolding get_next_table_id
get_next_table_id-free rules routes candidate =
    elim (next_from-cases rules routes (length rules + length routes) candidate) [
      | inl found ↦ found
      | inr all ↦
          let most =
            AreTaken-length candidate (length rules + length routes + 1) (taken rules routes) all in
          absurd (omega (arith, most, length-taken rules routes))
    ]
