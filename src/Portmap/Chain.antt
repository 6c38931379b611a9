-- ===== src/Portmap/Chain.antt =====
-- plugins/meta/portmap/chain.go: setting up, checking and tearing down a chain.
use plugins.Prelude.{
  ◌-◌, List, [], ◌∷◌, ◌++◌, Bool, false, some, Result, ok, err, Text, text, text_eq, drop, length,
  if◌then◌else◌, reverse,
}
use plugins.Iptables.{
  IptError, other_error, Act, pure, fail, catch, ◌>>=◌, ◌>>◌, Handle, chain_exists, ensure_chain,
  delete_rule, delete_chain, clear_chain,
}
use plugins.Portmap.Rules.{Rule, Chain}

-- a loop over a list that stops at the first error
pub each : {S A : Type 0} → List A → (A → Act S (Unit {0})) → Act S (Unit {0})
each [] f = pure tt
each (x ∷ xs) f = f x >> each xs f

module _ {S : Type 0} (ipt : Handle S) where
  unfoldable pub insert_unique : Text → Text → Bool → Rule → Act S (Unit {0})
  insert_unique table chain prepend rule = do
    found ← ipt.exists_rule table chain rule
    if found
        then pure tt
        else if prepend
        then ipt.insert table chain 1 rule
        else ipt.append table chain rule

  -- The rule that leads from an entry chain to a chain.
  abbrev pub jump : Chain → Rule → Rule
  jump c rule = rule ++ (text "-j" ∷ c.name ∷ [])

  unfoldable pub setup : Chain → Act S (Unit {0})
  unfolding each insert_unique ensure_chain
  setup c = do
    ensure_chain (some ipt) c.table c.name
    each c.rules (insert_unique c.table c.name false)
    each c.entry_chains λ entry.
        each c.entry_rules λ rule. insert_unique c.table entry c.prepend_entry (jump c rule)

  unfoldable pub check_rule : Text → Text → Rule → Act S Bool
  check_rule table chain rule =
      catch (ipt.exists_rule table chain rule) λ r. elim r [ err _ ↦ pure false | ok b ↦ pure b ]

  abbrev require_rule : Text → Text → Rule → Act S (Unit {0})
  require_rule table chain rule = do
    found ← check_rule table chain rule
    if found then pure tt else fail other_error

  unfoldable pub check : Chain → Act S (Unit {0})
  unfolding each check_rule chain_exists
  check c = do
    found ← chain_exists (some ipt) c.table c.name
    if found then pure tt else fail other_error
    each (reverse c.rules) (require_rule c.table c.name)
    each c.entry_chains
        λ entry. each (reverse c.entry_rules) λ rule. require_rule c.table entry (jump c rule)

  -- `strings.HasSuffix`
  unfoldable pub has_suffix : Text → Text → Bool
  has_suffix line suffix = text_eq (drop (length line - length suffix) line) suffix

  module _ (parse_words : Text → Result IptError (List Text)) where
    -- One line of the listing of an entry chain; the parsed words begin with `-A` and the chain.
    unfoldable pub remove_reference : Chain → Text → Text → Act S (Unit {0})
    remove_reference c entry line =
        if has_suffix line (text "-j " ++ c.name)
        then elim (parse_words line) [
          | err e ↦ fail e
          | ok words ↦ delete_rule (some ipt) c.table entry (drop 2 words)
        ]
        else pure tt

    -- An entry chain that cannot be listed, or has no rule, is passed over.
    abbrev remove_references : Chain → Text → Act S (Unit {0})
    remove_references c entry = catch (ipt.list_rules c.table entry) λ r. elim r [
      | err _ ↦ pure tt
      | ok [] ↦ pure tt
      | ok (policy ∷ lines) ↦ each lines (remove_reference c entry)
    ]

    unfoldable pub teardown : Chain → Act S (Unit {0})
    unfolding each remove_reference clear_chain delete_chain
    teardown c = do
      clear_chain (some ipt) c.table c.name
      each c.entry_chains (remove_references c)
      delete_chain (some ipt) c.table c.name
