-- ===== src/Portmap/Forward.antt =====
-- The operations of plugins/meta/portmap/portmap.go and the commands of main.go.
--
-- Parameters: `iptables.NewWithProtocol` (none is its error), `netlink` for the interface that
-- routes to an address, `sysctl.Sysctl`, the deletion of conntrack entries, and SHA-512.
use plugins.Prelude.{
  ℕ, List, [], ◌∷◌, ◌++◌, Bool, true, false, ◌&&◌, ◌||◌, not, Option, none, some, Result, ok, err,
  Text, text, text_eq, to_lower, ◌%◌, ◌^◌, length, ◌==◌, if◌then◌else◌,
}
use plugins.Net.{Ip, IpNet, is_nil}
use plugins.Iptables.{
  IptError, other_error, Act, pure, fail, catch, ◌>>=◌, ◌>>◌, Handle, chain_exists,
}
use plugins.Portmap.Ports.{PortMapEntry, PortMapConf, is_v6}
use plugins.Portmap.Rules.{
  Chain, Texts, gen_toplevel_dnat_chain, gen_dnat_chain, gen_old_snat_chain, gen_set_mark_chain,
  gen_mark_masq_chain, fill_dnat_rules,
}
use plugins.Portmap.Chain.{setup, check, teardown}

pub record Host (S : Type 0) : Type 0 where
  pub open_iptables : Bool → Option (Handle S)
  pub routable_host_if : Ip → Text
  pub sysctl : Text → Text → Act S (Unit {0})
  pub delete_conntrack : ℕ → Bool → Act S (Unit {0})
  pub sha512_hex : Text → Text
  pub parse_words : Text → Result IptError (List Text)
  pub texts : Texts

module _ {S : Type 0} (host : Host S) where
  -- a generated chain, where none is a panic
  abbrev generated : Option Chain → (Chain → Act S (Unit {0})) → Act S (Unit {0})
  generated none f = fail other_error
  generated (some c) f = f c

  unfoldable pub enable_localnet_routing : Text → Act S (Unit {0})
  enable_localnet_routing if_name =
      host.sysctl (text "net/ipv4/conf/" ++ (if_name ++ text "/route_localnet")) (text "1")

  -- The masquerading that `forwardPorts` enables.
  unfoldable pub enable_masquerading : Handle S → PortMapConf → IpNet → Act S (Unit {0})
  unfolding enable_localnet_routing
  enable_masquerading ipt config container = if not config.snat then pure tt else do
    if is_nil config.external_set_mark_chain
        then (do
          setup ipt (gen_set_mark_chain config.mark_masq_bit)
          setup ipt (gen_mark_masq_chain config.mark_masq_bit))
        else pure tt
    if is_v6 container.ip || text_eq (host.routable_host_if container.ip) []
        then pure tt
        else enable_localnet_routing (host.routable_host_if container.ip)

  unfoldable pub forward_ports : PortMapConf → IpNet → Act S (Unit {0})
  unfolding enable_masquerading
  forward_ports config container = elim (host.open_iptables (is_v6 container.ip)) [
    | none ↦ fail other_error
    | some ipt ↦ do
      enable_masquerading ipt config container
      setup ipt gen_toplevel_dnat_chain
      generated (gen_dnat_chain host.sha512_hex config.name config.container_id)
          λ c. setup ipt (fill_dnat_rules host.texts config container c)
  ]

  -- `maybeGetIptables`: none where iptables cannot be opened or cannot list a chain
  unfoldable pub maybe_get_iptables : Bool → Act S (Option (Handle S))
  maybe_get_iptables v6 = elim (host.open_iptables v6) [
    | none ↦ pure none
    | some ipt ↦
        catch (ipt.list_rules (text "nat") (text "OUTPUT"))
          λ r. elim r [ err _ ↦ pure none | ok _ ↦ pure (some ipt) ]
  ]

  -- The part of `checkPorts` for one family: the function returns at once, with no error, where the
  -- chain does not exist. The result says whether it goes on.
  unfoldable pub check_family : Chain → Option (Handle S) → Act S Bool
  check_family c none = pure true
  check_family c (some ipt) = do
    found ← chain_exists (some ipt) c.table c.name
    if found then (do check ipt c; pure true) else pure false

  unfoldable pub check_ports : PortMapConf → IpNet → Act S (Unit {0})
  unfolding maybe_get_iptables check_family
  check_ports config container =
      generated (gen_dnat_chain host.sha512_hex config.name config.container_id) λ chain. do
        let c = fill_dnat_rules host.texts config container chain
        ip4t ← maybe_get_iptables false
        ip6t ← maybe_get_iptables true
        if is_nil ip4t && is_nil ip6t then fail other_error else do
          more ← check_family c ip4t
          if more then (do check_family c ip6t; pure tt) else pure tt

  -- The part of `unforwardPorts` for one family; the result for the old chain is ignored.
  unfoldable pub unforward_family : Chain → Chain → Option (Handle S) → Act S (Unit {0})
  unforward_family dnat old none = pure tt
  unforward_family dnat old (some ipt) = do
    teardown ipt host.parse_words dnat
    catch (teardown ipt host.parse_words old) λ _. pure tt

  unfoldable pub unforward_ports : PortMapConf → Act S (Unit {0})
  unfolding maybe_get_iptables unforward_family
  unforward_ports config =
      generated (gen_dnat_chain host.sha512_hex config.name config.container_id) λ dnat.
        generated (gen_old_snat_chain host.sha512_hex config.name config.container_id) λ old. do
          ip4t ← maybe_get_iptables false
          ip6t ← maybe_get_iptables true
          if is_nil ip4t && is_nil ip6t
              then fail other_error
              else do unforward_family dnat old ip4t; unforward_family dnat old ip6t

  -- `deletePortmapStaleConnections`
  unfoldable pub delete_stale_connections : List PortMapEntry → Bool → Act S (Unit {0})
  delete_stale_connections [] v6 = pure tt
  delete_stale_connections (e ∷ rest) v6 =
      if text_eq (to_lower e.protocol) (text "udp")
      then (host.delete_conntrack (e.host_port % 2 ^ 16) v6 >> delete_stale_connections rest v6)
      else delete_stale_connections rest v6

  abbrev forward_family : PortMapConf → Bool → Option IpNet → Act S (Unit {0})
  forward_family config v6 none = pure tt
  forward_family config v6 (some net) = do
    forward_ports config net
    catch (delete_stale_connections config.port_maps v6) λ _. pure tt

  -- `cmdAdd` after parsing; the previous result is passed through.
  unfoldable pub cmd_add : Bool → PortMapConf → Option IpNet → Option IpNet → Act S (Unit {0})
  unfolding forward_ports delete_stale_connections
  cmd_add has_prev_result config cont_ipv4 cont_ipv6 =
      if not has_prev_result
      then fail other_error
      else if length config.port_maps == 0
      then pure tt
      else do forward_family config false cont_ipv4; forward_family config true cont_ipv6

  -- `cmdDel` after parsing
  unfoldable pub cmd_del : PortMapConf → Act S (Unit {0})
  unfolding unforward_ports
  cmd_del config = if length config.port_maps == 0 then pure tt else unforward_ports config

  abbrev check_net : PortMapConf → Option IpNet → Act S (Unit {0})
  check_net config none = pure tt
  check_net config (some net) = check_ports config net

  -- `cmdCheck` after parsing
  unfoldable pub cmd_check : Bool → PortMapConf → Option IpNet → Option IpNet → Act S (Unit {0})
  unfolding check_ports
  cmd_check has_prev_result config cont_ipv4 cont_ipv6 =
      if not has_prev_result
      then fail other_error
      else if length config.port_maps == 0
      then pure tt
      else do check_net config cont_ipv4; check_net config cont_ipv6
