-- ===== src/Firewall/Laws.antt =====
-- What plugins/meta/firewall relies on of go-iptables, and what its operations keep.
use plugins.Prelude.{
  ◌≡◌, refl, ap, ◌∙◌, List, Bool, true, false, some, Result, ok, err, Text, text_eq, any,
  Bool-cases, inl, inr,
}
use plugins.Iptables.{
  Act, IptError, Handle, pure, continue, chain_exists, ensure_chain, make_missing, ◌>>=◌,
}
use plugins.Firewall.{Rule, filter, insert_missing, ensure_first_chain_rule}

-- A sequence that succeeds has two parts that succeed.
pub >>=-ok :
    {S A B : Type 0} (m : Act S A) (f : A → Act S B) (s s' : S) (b : B)
    → (m >>= f) s ≡ (ok b, s')
    → (a : A) × (s1 : S) × (m s ≡ (ok a, s1)) × (f a s1 ≡ (ok b, s'))
>>=-ok {S} {A} {B} m f s s' b h = go (m s) refl h
  where
    go :
        (c : Result IptError A × S)
        → m s ≡ c
        → continue c.0 f c.1 ≡ (ok b, s')
        → (a : A) × (s1 : S) × (m s ≡ (ok a, s1)) × (f a s1 ≡ (ok b, s'))
    go (ok a, s1) e k = (a, s1, e, k)
    go (err x, s1) e k = absurd cc

-- The table filter of a state: whether a chain exists, and whether it has a rule.
pub record View (S : Type 0) : Type 0 where
  pub chains : S → List Text
  pub has : S → Text → Rule → Bool

-- Chains and rules are not lost.
pub record Grows {S : Type 0} (v : View S) (s s' : S) : Type 0 where
  pub rules_stay : (c : Text) (r : Rule) → v.has s c r ≡ true → v.has s' c r ≡ true
  pub chains_stay :
      (c : Text)
      → any (λ d. text_eq d c) (v.chains s) ≡ true
      → any (λ d. text_eq d c) (v.chains s') ≡ true

pub Grows-refl : {S : Type 0} (v : View S) (s : S) → Grows v s s
Grows-refl v s = record { rules_stay = λ c r h. h; chains_stay = λ c h. h }

pub Grows-trans :
    {S : Type 0} (v : View S) (s s' s'' : S) → Grows v s s' → Grows v s' s'' → Grows v s s''
Grows-trans v s s' s'' g h = record {
  rules_stay = λ c r k. h.rules_stay c r (g.rules_stay c r k);
  chains_stay = λ c k. h.chains_stay c (g.chains_stay c k);
}

-- Reading does not fail and changes nothing; a chain that does not exist can be made; a rule that
-- was inserted or appended is there.
pub record IsLawful {S : Type 0} (v : View S) (ipt : Handle S)
    (append_unique : Text → Text → Rule → Act S (Unit {0})) : Type 0 where
  pub list_law : (s : S) → ipt.list_chains filter s ≡ (ok (v.chains s), s)
  pub exists_law :
      (c : Text) (r : Rule) (s : S) → ipt.exists_rule filter c r s ≡ (ok (v.has s c r), s)
  pub new_law :
      (c : Text) (s : S)
      → any (λ d. text_eq d c) (v.chains s) ≡ false
      → (s' : S) × (ipt.new_chain filter c s ≡ (ok tt, s'))
        × (any (λ d. text_eq d c) (v.chains s') ≡ true)
        × Grows v s s'
  pub insert_law :
      (c : Text) (r : Rule) (s s' : S)
      → ipt.insert filter c 1 r s ≡ (ok tt, s')
      → (v.has s' c r ≡ true) × Grows v s s'
  pub append_law :
      (c : Text) (r : Rule) (s s' : S)
      → append_unique filter c r s ≡ (ok tt, s')
      → (v.has s' c r ≡ true) × Grows v s s'

module _ {S : Type 0} (v : View S) (ipt : Handle S)
    (append_unique : Text → Text → Rule → Act S (Unit {0}))
    (lawful : IsLawful v ipt append_unique) where
  abbrev pub HasChain : S → Text → Type 0
  HasChain s c = any (λ d. text_eq d c) (v.chains s) ≡ true

  chain_exists-view :
      (c : Text) (s : S)
      → chain_exists (some ipt) filter c s ≡ (ok (any (λ d. text_eq d c) (v.chains s)), s)
  unfolding chain_exists
  chain_exists-view c s =
      ap
        (λ (r : Result IptError (List Text) × S).
          continue r.0 (λ chains. pure (any (λ d. text_eq d c) chains)) r.1)
        (lawful.list_law s)

  ensure_chain-view :
      (c : Text) (s : S)
      → ensure_chain (some ipt) filter c s
        ≡ make_missing ipt filter c (ok (any (λ d. text_eq d c) (v.chains s))) s
  unfolding ensure_chain
  ensure_chain-view c s =
      ap (λ (r : Result IptError Bool × S). make_missing ipt filter c r.0 r.1)
        (chain_exists-view c s)

  -- A chain that exists is left alone.
  pub ensure_chain_there :
      (c : Text) (s : S) → HasChain s c → ensure_chain (some ipt) filter c s ≡ (ok tt, s)
  ensure_chain_there c s h = ensure_chain-view c s ∙ rw h refl

  ensure_chain_new :
      (c : Text) (s : S)
      → any (λ d. text_eq d c) (v.chains s) ≡ false
      → (s' : S) × (ensure_chain (some ipt) filter c s ≡ (ok tt, s')) × HasChain s' c × Grows v s s'
  ensure_chain_new c s e =
      let (s', made, there, grows) = lawful.new_law c s e in
      let view = ensure_chain-view c s in (s', view ∙ rw (e, made) refl, there, grows)

  pub ensure_chain-ok :
      (c : Text) (s s' : S) (u : Unit {0})
      → ensure_chain (some ipt) filter c s ≡ (ok u, s')
      → HasChain s' c × Grows v s s'
  ensure_chain-ok c s s' u h = elim (Bool-cases (any (λ d. text_eq d c) (v.chains s))) [
    | inl e ↦
        let there = ensure_chain_there c s e in
        let same : s ≡ s' = cc in ends s s' same (e, Grows-refl v s)
    | inr e ↦
        let (s1, made, there, grows) = ensure_chain_new c s e in
        let same : s1 ≡ s' = cc in ends s1 s' same (there, grows)
  ]
    where
      ends : (s1 s2 : S) → s1 ≡ s2 → HasChain s1 c × Grows v s s1 → HasChain s2 c × Grows v s s2
      ends s1 s2 e k = rw e at k

  pub ensure_first_chain_rule-ok :
      (c : Text) (r : Rule) (s s' : S) (u : Unit {0})
      → ensure_first_chain_rule ipt append_unique c r s ≡ (ok u, s')
      → (v.has s' c r ≡ true) × Grows v s s'
  unfolding ensure_first_chain_rule
  ensure_first_chain_rule-ok c r s s' u h =
      let (found, s1, e, k) =
        >>=-ok (ipt.exists_rule filter c r) (insert_missing ipt append_unique c r) s s' u h in
      let law = lawful.exists_law c r s in
      let same : s1 ≡ s = cc in
      let is_found : found ≡ v.has s c r = cc in
      elim (Bool-cases (v.has s c r)) [
        | inl t ↦
            let done : insert_missing ipt append_unique c r true s ≡ (ok u, s') =
              rw (same, is_found, t) at k in
            let end : s ≡ s' = cc in kept s s' end (t, Grows-refl v s)
        | inr t ↦
            let done : insert_missing ipt append_unique c r false s ≡ (ok u, s') =
              rw (same, is_found, t) at k in
            lawful.insert_law c r s s' done
      ]
    where
      kept :
          (s1 s2 : S)
          → s1 ≡ s2
          → (v.has s1 c r ≡ true) × Grows v s s1
          → (v.has s2 c r ≡ true) × Grows v s s2
      kept s1 s2 e k = rw e at k
