-- ===== src/Iptables.antt =====
-- pkg/utils/iptables.go: idempotent operations on chains, over a handle of go-iptables.
--
-- The handle is a parameter: its operations run on a state, and may fail with an error of iptables,
-- with its exit status, or with another one.
use plugins.Prelude.{
  ℕ, List, Bool, true, false, ◌||◌, Option, none, some, Result, ok, err, Text, text_eq, any, ◌==◌,
  if◌then◌else◌,
}

pub data IptError : Type 0 where
  exit_error : ℕ → Bool → IptError
  other_error : IptError

-- An action on the state, which stays changed after an error.
abbrev pub Act : Type 0 → Type 0 → Type 0
Act S A = S → Result IptError A × S

abbrev pub pure : {S A : Type 0} → A → Act S A
pure a s = (ok a, s)

abbrev pub fail : {S A : Type 0} → IptError → Act S A
fail e s = (err e, s)

abbrev pub continue : {S A B : Type 0} → Result IptError A → (A → Act S B) → Act S B
continue (ok a) f s = f a s
continue (err e) f s = (err e, s)

infixl 5 ◌>>=◌ ◌>>◌
abbrev pub ◌>>=◌ : {S A B : Type 0} → Act S A → (A → Act S B) → Act S B
◌>>=◌ m f s = let (r, s') = m s in continue r f s'

abbrev pub ◌>>◌ : {S A B : Type 0} → Act S A → Act S B → Act S B
m >> n = m >>= λ _. n

-- to go on with the error of an action as a value
abbrev pub catch : {S A B : Type 0} → Act S A → (Result IptError A → Act S B) → Act S B
catch m f s = let (r, s') = m s in f r s'

pub record Handle (S : Type 0) : Type 0 where
  pub list_chains : Text → Act S (List Text)
  pub exists_rule : Text → Text → List Text → Act S Bool
  pub insert : Text → Text → ℕ → List Text → Act S (Unit {0})
  pub append : Text → Text → List Text → Act S (Unit {0})
  pub delete : Text → Text → List Text → Act S (Unit {0})
  pub list_rules : Text → Text → Act S (List Text)
  pub new_chain : Text → Text → Act S (Unit {0})
  pub clear_chain : Text → Text → Act S (Unit {0})
  pub delete_chain : Text → Text → Act S (Unit {0})

abbrev pub is_not_exist : IptError → Bool
is_not_exist (exit_error status missing) = missing
is_not_exist other_error = false

abbrev pub status_chain_exists : ℕ
status_chain_exists = 1

module _ {S : Type 0} where
  -- `ChainExists`; a nil handle is an error
  unfoldable pub chain_exists : Option (Handle S) → Text → Text → Act S Bool
  chain_exists none table chain = fail other_error
  chain_exists (some ipt) table chain = do
    chains ← ipt.list_chains table
    pure (any (λ ch. text_eq ch chain) chains)

  -- What `EnsureChain` makes of an error of `NewChain`: only an exit status other than 1 counts.
  abbrev pub new_chain_result : Result IptError (Unit {0}) → Act S (Unit {0})
  new_chain_result (ok a) = pure tt
  new_chain_result (err other_error) = pure tt
  new_chain_result (err (exit_error status missing)) =
      if status == status_chain_exists then pure tt else fail (exit_error status missing)

  -- what `EnsureChain` makes of the result of `ChainExists`
  abbrev pub make_missing : Handle S → Text → Text → Result IptError Bool → Act S (Unit {0})
  make_missing ipt table chain (err e) = fail other_error
  make_missing ipt table chain (ok true) = pure tt
  make_missing ipt table chain (ok false) = catch (ipt.new_chain table chain) new_chain_result

  unfoldable pub ensure_chain : Option (Handle S) → Text → Text → Act S (Unit {0})
  ensure_chain none table chain = fail other_error
  ensure_chain (some ipt) table chain =
      catch (chain_exists (some ipt) table chain) (make_missing ipt table chain)

  abbrev pub delete_rule_result : Result IptError (Unit {0}) → Act S (Unit {0})
  delete_rule_result (ok a) = pure tt
  delete_rule_result (err other_error) = fail other_error
  delete_rule_result (err (exit_error status missing)) =
      if missing || status == 2 then pure tt else fail other_error

  unfoldable pub delete_rule : Option (Handle S) → Text → Text → List Text → Act S (Unit {0})
  delete_rule none table chain rule = fail other_error
  delete_rule (some ipt) table chain rule = catch (ipt.delete table chain rule) delete_rule_result

  abbrev pub delete_chain_result : Result IptError (Unit {0}) → Act S (Unit {0})
  delete_chain_result (ok a) = pure tt
  delete_chain_result (err e) = if is_not_exist e then pure tt else fail e

  unfoldable pub delete_chain : Option (Handle S) → Text → Text → Act S (Unit {0})
  delete_chain none table chain = fail other_error
  delete_chain (some ipt) table chain = catch (ipt.delete_chain table chain) delete_chain_result

  abbrev pub clear_chain_result :
      Option (Handle S) → Text → Text → Result IptError (Unit {0}) → Act S (Unit {0})
  clear_chain_result ipt table chain (ok a) = pure tt
  clear_chain_result ipt table chain (err e) =
      if is_not_exist e then ensure_chain ipt table chain else fail e

  unfoldable pub clear_chain : Option (Handle S) → Text → Text → Act S (Unit {0})
  clear_chain none table chain = fail other_error
  clear_chain (some ipt) table chain =
      catch (ipt.clear_chain table chain) (clear_chain_result (some ipt) table chain)
