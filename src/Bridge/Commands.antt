-- ===== src/Bridge/Commands.antt =====
-- plugins/main/bridge/bridge.go: the commands ADD and DEL. A wrapped error is the error itself.
pub mod Release
use plugins.Prelude.{
  ℕ, List, [], ◌∷◌, Bool, true, false, ◌&&◌, not, Option, none, some, Result, ok, err, Text, length,
  ◌==◌, if◌then◌else◌,
}
use plugins.Prelude.Effects.{Act, pure, fail, lift, catch, check_that, relabel, each, ◌>>=◌, ◌>>◌}
use plugins.Net.{IpNet}
use plugins.Masquerade.{teardown_ip_masq}
use plugins.Links.{LinkError, Link, Netlink, Interface, AddResult, attempt}
use plugins.Links.Veth.{del_link_by_name_addr}
use plugins.Bridge.{NetConf, load_net_conf}
use plugins.Bridge.Setup.{bridge_by_name, setup_veth_pair, setup_bridge}
use plugins.Bridge.Layer3.{
  Calls, CmdArgs, is_v6, is_layer3, as_gateway, chain_of, comment_of, add_layer3,
}

-- `brInterface.Mac = ...`: the bridge is the first interface of the result
abbrev pub set_bridge_mac : Text → AddResult → AddResult
set_bridge_mac mac r = elim r.interfaces [
  | [] ↦ r
  | br ∷ others ↦ record r { interfaces = record br { mac = mac } ∷ others }
]

-- the result for an L2 interface only
abbrev pub port_result : NetConf → Interface → Interface × Interface → AddResult
port_result n br ends = record {
  interfaces = br ∷ ends.0 ∷ ends.1 ∷ [];
  ips = [];
  routes = [];
  dns = n.dns;
}

module _ {S : Type 0} (calls : Calls S) (host cont : Netlink S) where
  -- from the second look at the bridge until `success = true`
  unfoldable pub finish : NetConf → AddResult → Act LinkError S AddResult
  unfolding bridge_by_name
  finish n result = bridge_by_name host n.br_name >>= λ br.
      check_that (not calls.debug_error) LinkError.requested
      >> pure (record (set_bridge_mac br.hardware_addr result) { dns = n.dns })

  -- `if !success { ipam.ExecDel(...) }`
  abbrev pub released : {A : Type 0} → NetConf → CmdArgs → Act LinkError S A → Act LinkError S A
  released n args m = catch m λ r. elim r [
    | ok a ↦ pure a
    | err e ↦ attempt (calls.exec_del n.ipam_type args.stdin) >> fail e
  ]

  -- what follows the call of the IPAM plugin, and is undone when it fails
  unfoldable pub add_addresses :
      NetConf → CmdArgs → Link → Text → AddResult → Text → Act LinkError S AddResult
  unfolding add_layer3 finish
  add_addresses n args br host_name result raw =
      released n args
        (add_layer3 calls host cont n args br host_name result raw >>= λ res. finish n res)

  unfoldable pub add_result : NetConf → CmdArgs → Act LinkError S AddResult
  unfolding setup_bridge setup_veth_pair finish add_addresses
  add_result n args =
      check_that (not (n.hairpin_mode && n.promisc_mode)) LinkError.mode_conflict
      >> (setup_bridge host n >>= λ br.
          calls.open_ns args.netns
          >> (setup_veth_pair calls.entropy calls.parse_mac host cont args.netns br.0 args.if_name
                n.mtu n.hairpin_mode n.vlan n.mac
              >>= λ ends.
                  if is_layer3 n
                  then (calls.exec_add n.ipam_type args.stdin >>= λ raw.
                      add_addresses n args br.0 ends.0.name (port_result n br.1 ends) raw)
                  else finish n (port_result n br.1 ends)))

  unfoldable pub cmd_add : CmdArgs → Act LinkError S (Unit {0})
  unfolding load_net_conf add_result
  cmd_add args = lift (load_net_conf calls.decode calls.load_args args.stdin args.args) >>= λ n.
      add_result (as_gateway n) args >>= λ r. calls.print_result r

  abbrev pub masq_off : NetConf → CmdArgs → List IpNet → Act LinkError S (Unit {0})
  unfolding teardown_ip_masq
  masq_off n args nets =
      if is_layer3 n && n.ip_masq
      then (chain_of calls host cont n args >>= λ chain. each nets λ ipn.
          relabel LinkError.failed (calls.new_handle (is_v6 ipn.ip)) >>= λ ipt.
          relabel LinkError.failed (
            teardown_ip_masq ipt calls.append_unique calls.net_text calls.ip_text ipn chain
              (comment_of calls host cont n args)))
      else pure tt

  -- the addresses of the interface, none if it does not exist
  abbrev pub del_interface : Text → Act LinkError S (List IpNet)
  unfolding del_link_by_name_addr
  del_interface name =
      catch (del_link_by_name_addr cont name) λ r. elim r [
        | ok nets ↦ pure nets
        | err LinkError.link_not_found ↦ pure []
        | err e ↦ fail e
      ]

  unfoldable pub cmd_del : CmdArgs → Act LinkError S (Unit {0})
  unfolding load_net_conf
  cmd_del args = lift (load_net_conf calls.decode calls.load_args args.stdin args.args) >>= λ n.
      (if is_layer3 n then calls.exec_del n.ipam_type args.stdin else pure tt)
      >> (if length args.netns == 0
          then pure tt
          else (calls.open_ns args.netns
              >> (cont.enter >> (del_interface args.if_name >>= λ nets. masq_off n args nets))))
