-- ===== src/Firewall/Check.antt =====
-- CHECK after ADD of plugins/meta/firewall with the iptables backend.
use plugins.Prelude.{
  ◌≡◌, refl, ap, ◌∙◌, List, [], ◌∷◌, Bool, true, some, Result, ok, err, Text, text_eq, any, All,
}
use plugins.Iptables.{Act, IptError, Handle, catch, continue, ensure_chain, ◌>>=◌, ◌>>◌}
use plugins.Firewall.{
  Rule, filter, forward, generate_filter_rule, generate_admin_rule, ensure_first_chain_rule,
  setup_chains, append_rules, or_clean_up, add_rules, expected, expect_rules, check_rules,
}
use plugins.Firewall.Laws.{
  >>=-ok, View, Grows, Grows-refl, Grows-trans, IsLawful, ensure_chain_there, ensure_chain-ok,
  ensure_first_chain_rule-ok,
}

module _ {S : Type 0} (v : View S) (ipt : Handle S)
    (append_unique : Text → Text → Rule → Act S (Unit {0}))
    (lawful : IsLawful v ipt append_unique) where
  -- What `setupChains` leaves.
  record IsSetUp (priv admin : Text) (s : S) : Type 0 where
    priv_there : any (λ d. text_eq d priv) (v.chains s) ≡ true
    admin_there : any (λ d. text_eq d admin) (v.chains s) ≡ true
    filter_rule : v.has s forward (generate_filter_rule priv) ≡ true
    admin_rule : v.has s priv (generate_admin_rule admin) ≡ true

  Grows-IsSetUp :
      (priv admin : Text) (s s' : S) → Grows v s s' → IsSetUp priv admin s → IsSetUp priv admin s'
  Grows-IsSetUp priv admin s s' g h = record {
    priv_there = g.chains_stay priv h.priv_there;
    admin_there = g.chains_stay admin h.admin_there;
    filter_rule = g.rules_stay forward (generate_filter_rule priv) h.filter_rule;
    admin_rule = g.rules_stay priv (generate_admin_rule admin) h.admin_rule;
  }

  setup_chains-IsSetUp :
      (priv admin : Text) (s s' : S) (u : Unit {0})
      → setup_chains ipt append_unique priv admin s ≡ (ok u, s')
      → IsSetUp priv admin s'
  unfolding setup_chains
  setup_chains-IsSetUp priv admin s s' u h =
      let first_rule =
        ensure_first_chain_rule ipt append_unique forward (generate_filter_rule priv) in
      let second_rule =
        ensure_first_chain_rule ipt append_unique priv (generate_admin_rule admin) in
      let (u1, s1, e1, h1) =
        >>=-ok (ensure_chain (some ipt) filter priv)
          (λ _. ensure_chain (some ipt) filter admin >> (first_rule >> second_rule)) s s' u h in
      let (u2, s2, e2, h2) =
        >>=-ok (ensure_chain (some ipt) filter admin) (λ _. first_rule >> second_rule) s1 s' u h1 in
      let (u3, s3, e3, h3) = >>=-ok first_rule (λ _. second_rule) s2 s' u h2 in
      let (priv_there, g1) = ensure_chain-ok v ipt append_unique lawful priv s s1 u1 e1 in
      let (admin_there, g2) = ensure_chain-ok v ipt append_unique lawful admin s1 s2 u2 e2 in
      let (filter_rule, g3) =
        ensure_first_chain_rule-ok v ipt append_unique lawful forward (generate_filter_rule priv) s2
          s3 u3 e3 in
      let (admin_rule, g4) =
        ensure_first_chain_rule-ok v ipt append_unique lawful priv (generate_admin_rule admin) s3 s'
          u h3 in
      record {
        priv_there = g4.chains_stay priv (g3.chains_stay priv (g2.chains_stay priv priv_there));
        admin_there = g4.chains_stay admin (g3.chains_stay admin admin_there);
        filter_rule = g4.rules_stay forward (generate_filter_rule priv) filter_rule;
        admin_rule = admin_rule;
      }

  -- Every rule is in the chain.
  abbrev HasRules : S → Text → List Rule → Type 0
  HasRules s chain rules = All (λ r. v.has s chain r ≡ true) rules

  append_rules-HasRules :
      (priv : Text) (rules : List Rule) (s s' : S) (u : Unit {0})
      → append_rules ipt append_unique priv rules s ≡ (ok u, s')
      → HasRules s' priv rules × Grows v s s'
  unfolding append_rules
  append_rules-HasRules priv [] s s' u h = let same : s ≡ s' = cc in (tt, rw same (Grows-refl v s'))
  append_rules-HasRules priv (r ∷ rules) s s' u h =
      let (u1, s1, e1, h1) =
        >>=-ok (append_unique filter priv r) (λ _. append_rules ipt append_unique priv rules) s s' u
          h in
      let (there, g1) = lawful.append_law priv r s s1 e1 in
      let (rest, g2) = append_rules-HasRules priv rules s1 s' u h1 in
      ((g2.rules_stay priv r there, rest), Grows-trans v s s1 s' g1 g2)

  -- An expected rule that is there is found.
  expected_there :
      (chain : Text) (r : Rule) (s : S)
      → v.has s chain r ≡ true
      → (ipt.exists_rule filter chain r >>= expected ipt append_unique) s ≡ (ok tt, s)
  expected_there chain r s h =
      ap (λ (c : Result IptError Bool × S). continue c.0 (expected ipt append_unique) c.1)
        (lawful.exists_law chain r s)
      ∙ rw h refl

  -- A sequence whose first part succeeds goes on.
  >>-goes_on : (m n : Act S (Unit {0})) (s : S) → m s ≡ (ok tt, s) → (m >> n) s ≡ n s
  >>-goes_on m n s h = ap (λ (c : Result IptError (Unit {0}) × S). continue c.0 (λ _. n) c.1) h

  expect_rules-there :
      (chain : Text) (rules : List Rule) (s : S)
      → HasRules s chain rules
      → expect_rules ipt append_unique chain rules s ≡ (ok tt, s)
  unfolding expect_rules
  expect_rules-there chain [] s h = refl
  expect_rules-there chain (r ∷ rules) s h =
      >>-goes_on (ipt.exists_rule filter chain r >>= expected ipt append_unique)
        (expect_rules ipt append_unique chain rules) s (expected_there chain r s h.0)
      ∙ expect_rules-there chain rules s h.1

  check_rules-there :
      (priv admin : Text) (r : Rule) (rules : List Rule) (s : S)
      → IsSetUp priv admin s
      → HasRules s priv (r ∷ rules)
      → check_rules ipt append_unique priv admin (r ∷ rules) s ≡ (ok tt, s)
  unfolding check_rules
  check_rules-there priv admin r rules s up h =
      let rest = expect_rules ipt append_unique priv (r ∷ rules) in
      let admin_check =
        ipt.exists_rule filter priv (generate_admin_rule admin) >>= expected ipt append_unique in
      let filter_check =
        ipt.exists_rule filter forward (generate_filter_rule priv) >>= expected ipt append_unique in
      >>-goes_on (ensure_chain (some ipt) filter priv)
        (ensure_chain (some ipt) filter admin >> (filter_check >> (admin_check >> rest))) s
        (ensure_chain_there v ipt append_unique lawful priv s up.priv_there)
      ∙ >>-goes_on (ensure_chain (some ipt) filter admin) (filter_check >> (admin_check >> rest)) s
          (ensure_chain_there v ipt append_unique lawful admin s up.admin_there)
      ∙ >>-goes_on filter_check (admin_check >> rest) s
          (expected_there forward (generate_filter_rule priv) s up.filter_rule)
      ∙ >>-goes_on admin_check rest s
          (expected_there priv (generate_admin_rule admin) s up.admin_rule)
      ∙ expect_rules-there priv (r ∷ rules) s h

  or_clean_up-ok :
      (priv : Text) (rules : List Rule) (c : Result IptError (Unit {0}) × S) (u : Unit {0}) (s' : S)
      → or_clean_up ipt append_unique priv rules c.0 c.1 ≡ (ok u, s')
      → c ≡ (ok u, s')
  or_clean_up-ok priv rules (ok t, s) u s' h = h
  or_clean_up-ok priv rules (err e, s) u s' h = absurd cc

  -- After an ADD of a family's rules that succeeds, CHECK of the same rules succeeds and changes
  -- nothing.
  pub check_rules-add_rules :
      (priv admin : Text) (rules : List Rule) (s s' : S)
      → add_rules ipt append_unique priv admin rules s ≡ (ok tt, s')
      → check_rules ipt append_unique priv admin rules s' ≡ (ok tt, s')
  unfolding add_rules check_rules
  check_rules-add_rules priv admin [] s s' h = refl
  check_rules-add_rules priv admin (r ∷ rules) s s' h =
      let append = append_rules ipt append_unique priv (r ∷ rules) in
      let (u1, s1, e1, h1) =
        >>=-ok (setup_chains ipt append_unique priv admin)
          (λ _. catch append (or_clean_up ipt append_unique priv (r ∷ rules))) s s' tt h in
      let up = setup_chains-IsSetUp priv admin s s1 u1 e1 in
      let appended = or_clean_up-ok priv (r ∷ rules) (append s1) tt s' h1 in
      let (there, grows) = append_rules-HasRules priv (r ∷ rules) s1 s' tt appended in
      check_rules-there priv admin r rules s' (Grows-IsSetUp priv admin s1 s' grows up) there
