-- ===== src/Examples/Firewalls.antt =====
-- The firewall's rules in a table that is a list.
use plugins.Prelude.{
  ◌≡◌, refl, List, [], ◌∷◌, Bool, true, false, ◌&&◌, Result, ok, Text, text, text_eq, text_eq_self,
  any, arith, if◌then◌else◌, Bool-cases, inl, inr,
}
use plugins.Net.{to4}
use plugins.Iptables.{Act, IptError, Handle, ensure_chain, chain_exists}
use plugins.Firewall.{
  Rule, priv_chain_name, forward, rules_of, ip_string, get_priv_chain_rules, generate_filter_rule,
  generate_admin_rule, ensure_first_chain_rule, setup_chains, append_rules, add_rules, check_rules,
}
use plugins.Firewall.Laws.{View, Grows, Grows-refl, IsLawful}
use plugins.Firewall.Check.{check_rules-add_rules}

program : Unit {0}
unfolding to4 ensure_chain chain_exists rules_of ip_string get_priv_chain_rules generate_filter_rule
    generate_admin_rule ensure_first_chain_rule setup_chains append_rules add_rules
program = tt

record Table : Type 0 where
  names : List Text
  entries : List (Text × Rule)

abbrev rule_eq : Rule → Rule → Bool
rule_eq [] [] = true
rule_eq [] (y ∷ ys) = false
rule_eq (x ∷ xs) [] = false
rule_eq (x ∷ xs) (y ∷ ys) = text_eq x y && rule_eq xs ys

rule_eq_self : (r : Rule) → rule_eq r r ≡ true
rule_eq_self [] = refl
rule_eq_self (x ∷ xs) = ground (arith, text_eq_self x, rule_eq_self xs)

abbrev table_has : Table → Text → Rule → Bool
table_has t c r = any (λ e. text_eq e.0 c && rule_eq e.1 r) t.entries

abbrev view : View Table
view = record { chains = λ t. t.names; has = table_has }

abbrev with_rule : Text → Rule → Act Table (Unit {0})
with_rule c r t = (ok tt, record t { entries = (c, r) ∷ t.entries })

abbrev append_unique : Text → Text → Rule → Act Table (Unit {0})
append_unique table c r t = if table_has t c r then (ok tt, t) else with_rule c r t

abbrev handle : Handle Table
handle = record {
  list_chains = λ table t. (ok t.names, t);
  exists_rule = λ table c r t. (ok (table_has t c r), t);
  insert = λ table c n r. with_rule c r;
  append = λ table c r. with_rule c r;
  delete = λ table c r t. (ok tt, t);
  list_rules = λ table c t. (ok [], t);
  new_chain = λ table c t. (ok tt, record t { names = c ∷ t.names });
  clear_chain = λ table c t. (ok tt, t);
  delete_chain = λ table c t. (ok tt, t);
}

with_rule-Grows : (c : Text) (r : Rule) (t : Table) → Grows view t (with_rule c r t).1
with_rule-Grows c r t = record { rules_stay = λ d q h. ground (arith, h); chains_stay = λ d h. h }

inserted :
    (c : Text) (r : Rule) (t t' : Table)
    → with_rule c r t ≡ (ok tt, t')
    → (table_has t' c r ≡ true) × Grows view t t'
inserted c r t t' h =
    let same : (with_rule c r t).1 ≡ t' = cc in
    moved (with_rule c r t).1 t' same
      (ground (arith, text_eq_self c, rule_eq_self r), with_rule-Grows c r t)
  where
    moved :
        (t1 t2 : Table)
        → t1 ≡ t2
        → (table_has t1 c r ≡ true) × Grows view t t1
        → (table_has t2 c r ≡ true) × Grows view t t2
    moved t1 t2 e k = rw e at k

appended :
    (c : Text) (r : Rule) (t t' : Table)
    → append_unique [] c r t ≡ (ok tt, t')
    → (table_has t' c r ≡ true) × Grows view t t'
appended c r t t' h = elim (Bool-cases (table_has t c r)) [
  | inl e ↦
      let h' : ◌≡◌ {A = Result IptError (Unit {0}) × Table} (ok tt, t) (ok tt, t') = rw e at h in
      let same : t' ≡ t = cc in rw same (e, Grows-refl view t)
  | inr e ↦ inserted c r t t' (rw e at h)
]

handle-IsLawful : IsLawful view handle append_unique
handle-IsLawful = record {
  list_law = λ t. refl;
  exists_law = λ c r t. refl;
  new_law = λ c t h. (
    record t { names = c ∷ t.names },
    refl,
    ground (arith, text_eq_self c),
    record { rules_stay = λ d q k. k; chains_stay = λ d k. ground (arith, k) },
  );
  insert_law = inserted;
  append_law = appended;
}

-- the rules of an address, in a table without chains of the plugin
abbrev rules : List Rule
rules =
    rules_of (λ ip. text "10.0.0.2") true
      (record { ip = 10 ∷ 0 ∷ 0 ∷ 2 ∷ []; mask = 255 ∷ 255 ∷ 255 ∷ 0 ∷ [] } ∷ [])

abbrev fresh : Table
fresh = record { names = forward ∷ []; entries = [] }

abbrev admin : Text
admin = text "CNI-ADMIN"

abbrev filled : Table
filled = (add_rules handle append_unique priv_chain_name admin rules fresh).1

check_rules-add_rules_example :
    check_rules handle append_unique priv_chain_name admin rules filled ≡ (ok tt, filled)
unfolding program
check_rules-add_rules_example =
    check_rules-add_rules view handle append_unique handle-IsLawful priv_chain_name admin rules
      fresh filled refl
