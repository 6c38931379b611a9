-- ===== src/Firewall.antt =====
-- plugins/meta/firewall: the iptables backend (iptables.go), and the commands of firewall.go with it.
--
-- The handles of go-iptables and the text of an address are parameters.
pub mod Laws
pub mod Check
use plugins.Prelude.{
  ℕ, List, [], ◌∷◌, ◌++◌, Bool, true, false, ◌&&◌, not, Option, none, some, Result, ok, err, Text,
  text, text_eq, length, ◌==◌, if◌then◌else◌,
}
use plugins.Net.{Ip, IpNet, to4, is_nil}
use plugins.Iptables.{
  Act, IptError, Handle, other_error, pure, fail, catch, ensure_chain, ◌>>=◌, ◌>>◌,
}

-- a rule is the list of its arguments
abbrev pub Rule : Type 0
Rule = List Text

-- `FirewallNetConf`, as far as this backend reads it
pub record FirewallNetConf : Type 0 where
  pub backend : Text
  pub iptables_admin_chain_name : Text
  pub has_prev_result : Bool

pub data Backend : Type 0 where
  iptables firewalld : Backend

-- `getBackend`
unfoldable pub get_backend : Bool → FirewallNetConf → Backend
get_backend firewalld_running conf =
    if text_eq conf.backend (text "iptables")
    then iptables
    else if text_eq conf.backend (text "firewalld")
    then firewalld
    else if firewalld_running
    then firewalld
    else iptables

abbrev pub filter : Text
filter = text "filter"

abbrev pub forward : Text
forward = text "FORWARD"

abbrev pub priv_chain_name : Text
priv_chain_name = text "CNI-FORWARD"

-- `newIptablesBackend`: the chain of the administrator
unfoldable pub admin_chain_name : FirewallNetConf → Text
admin_chain_name conf =
    if text_eq conf.iptables_admin_chain_name []
    then text "CNI-ADMIN"
    else conf.iptables_admin_chain_name

unfoldable pub get_priv_chain_rules : Text → List Rule
get_priv_chain_rules ip =
    (text "-d"
      ∷ ip
      ∷ text "-m"
      ∷ text "conntrack"
      ∷ text "--ctstate"
      ∷ text "RELATED,ESTABLISHED"
      ∷ text "-j"
      ∷ text "ACCEPT"
      ∷ [])
    ∷ (text "-s" ∷ ip ∷ text "-j" ∷ text "ACCEPT" ∷ [])
    ∷ []

unfoldable pub generate_filter_rule : Text → Rule
generate_filter_rule chain =
    text "-m"
    ∷ text "comment"
    ∷ text "--comment"
    ∷ text "CNI firewall plugin rules"
    ∷ text "-j"
    ∷ chain
    ∷ []

unfoldable pub generate_admin_rule : Text → Rule
generate_admin_rule chain =
    text "-m"
    ∷ text "comment"
    ∷ text "--comment"
    ∷ text "CNI firewall plugin admin overrides"
    ∷ text "-j"
    ∷ chain
    ∷ []

-- `protoForIP`: true is IPv4
abbrev pub proto_for_ip : IpNet → Bool
proto_for_ip n = not (is_nil (to4 n.ip))

abbrev pub same_proto : Bool → Bool → Bool
same_proto true b = b
same_proto false b = not b

module _ (ip_text : Ip → Text) where
  unfoldable pub ip_string : IpNet → Text
  ip_string n =
      if is_nil (to4 n.ip) then ip_text n.ip ++ text "/128" else ip_text n.ip ++ text "/32"

  -- the rules of the addresses of a family
  unfoldable pub rules_of : Bool → List IpNet → List Rule
  rules_of proto [] = []
  rules_of proto (n ∷ ips) =
      let rest = rules_of proto ips in
      if same_proto (proto_for_ip n) proto then get_priv_chain_rules (ip_string n) ++ rest else rest

module _ {S : Type 0} (ipt : Handle S) (append_unique : Text → Text → Rule → Act S (Unit {0})) where
  -- the loop of `cleanupRules`, which ignores errors
  unfoldable pub cleanup_rules : Text → List Rule → S → S
  cleanup_rules chain [] s = s
  cleanup_rules chain (rule ∷ rules) s =
      cleanup_rules chain rules (ipt.delete filter chain rule s).1

  abbrev pub insert_missing : Text → Rule → Bool → Act S (Unit {0})
  insert_missing chain rule found = if found then pure tt else ipt.insert filter chain 1 rule

  unfoldable pub ensure_first_chain_rule : Text → Rule → Act S (Unit {0})
  ensure_first_chain_rule chain rule =
      ipt.exists_rule filter chain rule >>= insert_missing chain rule

  unfoldable pub setup_chains : Text → Text → Act S (Unit {0})
  setup_chains priv admin =
      ensure_chain (some ipt) filter priv
      >> (ensure_chain (some ipt) filter admin
          >> (ensure_first_chain_rule forward (generate_filter_rule priv)
              >> ensure_first_chain_rule priv (generate_admin_rule admin)))

  unfoldable pub append_rules : Text → List Rule → Act S (Unit {0})
  append_rules priv [] = pure tt
  append_rules priv (rule ∷ rules) = append_unique filter priv rule >> append_rules priv rules

  -- the deferred clean-up of `addRules`
  abbrev pub or_clean_up : Text → List Rule → Result IptError (Unit {0}) → Act S (Unit {0})
  or_clean_up priv rules (ok u) s = (ok u, s)
  or_clean_up priv rules (err e) s = (err e, cleanup_rules priv rules s)

  unfoldable pub add_rules : Text → Text → List Rule → Act S (Unit {0})
  add_rules priv admin [] = pure tt
  add_rules priv admin (rule ∷ rules) =
      setup_chains priv admin
      >> catch (append_rules priv (rule ∷ rules)) (or_clean_up priv (rule ∷ rules))

  unfoldable pub del_rules : Text → List Rule → S → S
  del_rules priv rules s = cleanup_rules priv rules s

  -- a rule that `checkRules` expects
  abbrev pub expected : Bool → Act S (Unit {0})
  expected found = if found then pure tt else fail other_error

  unfoldable pub expect_rules : Text → List Rule → Act S (Unit {0})
  expect_rules chain [] = pure tt
  expect_rules chain (rule ∷ rules) =
      (ipt.exists_rule filter chain rule >>= expected) >> expect_rules chain rules

  unfoldable pub check_rules : Text → Text → List Rule → Act S (Unit {0})
  check_rules priv admin [] = pure tt
  check_rules priv admin (rule ∷ rules) =
      ensure_chain (some ipt) filter priv
      >> (ensure_chain (some ipt) filter admin
          >> ((ipt.exists_rule filter forward (generate_filter_rule priv) >>= expected)
              >> ((ipt.exists_rule filter priv (generate_admin_rule admin) >>= expected)
                  >> expect_rules priv (rule ∷ rules))))

-- The commands with this backend: the families come in the order of a map's iteration.
module _ {S : Type 0} (ip_text : Ip → Text) (handle : Bool → Handle S)
    (append_unique : Bool → Text → Text → Rule → Act S (Unit {0})) where
  unfoldable pub add_protos : List Bool → Text → List IpNet → Act S (Unit {0})
  add_protos [] admin ips = pure tt
  add_protos (p ∷ protos) admin ips =
      add_rules (handle p) (append_unique p) priv_chain_name admin (rules_of ip_text p ips)
      >> add_protos protos admin ips

  unfoldable pub del_protos : List Bool → List IpNet → S → S
  del_protos [] ips s = s
  del_protos (p ∷ protos) ips s =
      del_protos protos ips
        (del_rules (handle p) (append_unique p) priv_chain_name (rules_of ip_text p ips) s)

  unfoldable pub check_protos : List Bool → Text → List IpNet → Act S (Unit {0})
  check_protos [] admin ips = pure tt
  check_protos (p ∷ protos) admin ips =
      check_rules (handle p) (append_unique p) priv_chain_name admin (rules_of ip_text p ips)
      >> check_protos protos admin ips

  unfoldable pub cmd_add : List Bool → FirewallNetConf → List IpNet → Act S (Unit {0})
  cmd_add protos conf ips =
      if conf.has_prev_result
      then add_protos protos (admin_chain_name conf) ips
      else fail other_error

  unfoldable pub cmd_del : List Bool → FirewallNetConf → List IpNet → Act S (Unit {0})
  cmd_del protos conf ips s = (ok tt, del_protos protos ips s)

  unfoldable pub cmd_check : List Bool → FirewallNetConf → List IpNet → Act S (Unit {0})
  cmd_check protos conf ips =
      if conf.has_prev_result
      then check_protos protos (admin_chain_name conf) ips
      else fail other_error
