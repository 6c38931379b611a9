-- ===== src/Bridge/Layer3.antt =====
-- plugins/main/bridge/bridge.go: what ADD does with the addresses of an IPAM plugin. A wrapped error is the error itself.
--
-- What the plugin calls beside netlink is a parameter: IPAM plugins, namespaces, timers, ARP, the
-- printing of a result and the handles of go-iptables.
use plugins.Prelude.{
  ℕ, List, [], ◌∷◌, ◌++◌, Bool, true, ◌&&◌, ◌||◌, not, Option, none, some, Result, ok, err, Text,
  any, length, ◌==◌, ltb, if◌then◌else◌,
}
use plugins.Prelude.Effects.{Act, pure, fail, lift, check_that, modify, relabel, each, ◌>>=◌, ◌>>◌}
use plugins.Net.{Ip, IpNet, to4, is_nil}
use plugins.Iptables.{IptError, Handle}
use plugins.ChainNames.{format_chain_name, format_comment}
use plugins.Masquerade.{SysFiles, setup_ip_masq}
use plugins.Links.{LinkError, Family, Link, Netlink, Interface, IpConfig, AddResult, attempt}
use plugins.Links.Configure.{configure_iface}
use plugins.Bridge.{NetConf, GwInfo, GwState, calc_gateways}
use plugins.Bridge.Addresses.{ensure_addr}
use plugins.Bridge.Setup.{
  interface_of, is_zero, ensure_vlan_interface, disable_ipv6_dad, enable_ip_forward,
}

-- `skel.CmdArgs`
pub record CmdArgs : Type 0 where
  pub container_id : Text
  pub netns : Text
  pub if_name : Text
  pub args : Text
  pub stdin : Text

pub record Calls (S : Type 0) : Type 0 where
  pub decode : Text → Option NetConf
  pub load_args : Text → Option Text
  pub net_text : IpNet → Text
  pub ip_text : Ip → Text
  pub parse_mac : Text → Option Text
  pub entropy : Act LinkError S (List ℕ)
  pub open_ns : Text → Act LinkError S (Unit {0})
  pub current_ns : Act LinkError S Text
  -- the raw result of an IPAM plugin, and `current.NewResultFromResult`
  pub exec_add : Text → Text → Act LinkError S Text
  pub new_result : Text → Option AddResult
  pub exec_del : Text → Text → Act LinkError S (Unit {0})
  pub sleep : ℕ → S → S
  -- `net.InterfaceByName`: the index
  pub interface_by_name : Text → Act LinkError S ℕ
  pub gratuitous_arp : Ip → Act LinkError S (Unit {0})
  pub files : SysFiles S
  -- the handle for IPv6 or for IPv4, and `AppendUnique`
  pub new_handle : Bool → Act IptError S (Handle S)
  pub append_unique : Text → Text → List Text → Act IptError S (Unit {0})
  pub sha512_hex : Text → Text
  pub quote : Text → Text
  pub print_result : AddResult → Act LinkError S (Unit {0})
  -- `debugPostIPAMError`
  pub debug_error : Bool

abbrev pub with_interface : Option Interface → AddResult → AddResult
with_interface none r = r
with_interface (some intf) r = record r { interfaces = r.interfaces ++ (intf ∷ []) }

-- the delays between the looks at the bridge port, in milliseconds
abbrev pub retries : List ℕ
retries = 0 ∷ 50 ∷ 500 ∷ 1000 ∷ 1000 ∷ []

abbrev pub is_v6 : Ip → Bool
unfolding to4
is_v6 ip = is_nil (to4 ip)

abbrev pub as_gateway : NetConf → NetConf
as_gateway n = if n.is_default_gw then record n { is_gw = true } else n

abbrev pub is_layer3 : NetConf → Bool
is_layer3 n = ltb 0 (length n.ipam_type)

module _ {S : Type 0} (calls : Calls S) (host cont : Netlink S) where
  abbrev pub converted : Text → Result LinkError AddResult
  converted raw = elim (calls.new_result raw) [ none ↦ err LinkError.bad_config | some r ↦ ok r ]

  abbrev pub dad_off : NetConf → Text → List IpConfig → Act LinkError S (Unit {0})
  unfolding disable_ipv6_dad
  dad_off n if_name ips =
      if any (λ ipc. is_v6 ipc.address.ip) ips && (n.hairpin_mode || n.promisc_mode)
      then disable_ipv6_dad cont if_name
      else pure tt

  -- the loop that waits for the port of the bridge, over the delays
  unfoldable pub await_port : Text → List ℕ → Act LinkError S (Unit {0})
  await_port name [] = pure tt
  await_port name (ms ∷ delays) =
      let rest = await_port name delays in
      modify (calls.sleep ms)
      >> (host.link_by_name name >>= λ l.
          if l.oper_up
          then pure tt
          else if length delays == 0
          then fail LinkError.port_down
          else rest)

  abbrev pub arp_for : IpConfig → Act LinkError S (Unit {0})
  arp_for ipc =
      if is_v6 ipc.address.ip then pure tt else attempt (calls.gratuitous_arp ipc.address.ip)

  abbrev pub announce : Text → List IpConfig → Act LinkError S (Unit {0})
  announce if_name ips = cont.enter >> (calls.interface_by_name if_name >> each ips arp_for)

  abbrev pub first_interface : Option Interface → Link → Option Interface
  first_interface (some intf) l = some intf
  first_interface none l = some (interface_of l)

  unfoldable pub set_gateway :
      NetConf → Link → Family → IpNet → Option Interface → Act LinkError S (Option Interface)
  unfolding ensure_addr ensure_vlan_interface
  set_gateway n br family gw vlan_if =
      if is_zero n.vlan
      then ensure_addr host calls.net_text br family gw n.force_address >> pure vlan_if
      else (ensure_vlan_interface calls.entropy calls.parse_mac host calls.current_ns br n.vlan
          >>= λ l.
              ensure_addr host calls.net_text l family gw n.force_address
              >> pure (first_interface vlan_if l))

  unfoldable pub set_gateways :
      NetConf → Link → Family → List IpNet → Option Interface → Act LinkError S (Option Interface)
  unfolding set_gateway
  set_gateways n br family [] vlan_if = pure vlan_if
  set_gateways n br family (gw ∷ gws) vlan_if =
      set_gateway n br family gw vlan_if >>= λ v. set_gateways n br family gws v

  abbrev pub forward_for : GwInfo → Act LinkError S (Unit {0})
  unfolding enable_ip_forward
  forward_for i = if length i.gws == 0 then pure tt else enable_ip_forward calls.files i.family

  -- the addresses of the bridge, for the gateways of both families
  unfoldable pub set_all_gateways : NetConf → Link → GwState → Act LinkError S (Option Interface)
  unfolding set_gateways
  set_all_gateways n br g =
      if n.is_gw
      then (set_gateways n br g.gws_v4.family g.gws_v4.gws none >>= λ v.
          forward_for g.gws_v4
          >> (set_gateways n br g.gws_v6.family g.gws_v6.gws v >>= λ w.
              forward_for g.gws_v6 >> pure w))
      else pure none

  abbrev pub chain_of : NetConf → CmdArgs → Act LinkError S Text
  unfolding format_chain_name
  chain_of n args = elim (format_chain_name calls.sha512_hex n.name args.container_id) [
    | none ↦ fail LinkError.failed
    | some chain ↦ pure chain
  ]

  abbrev pub comment_of : NetConf → CmdArgs → Text
  unfolding format_comment
  comment_of n args = format_comment calls.quote n.name args.container_id

  unfoldable pub masq_on : NetConf → CmdArgs → List IpConfig → Act LinkError S (Unit {0})
  masq_on n args ips =
      if n.ip_masq
      then (chain_of n args >>= λ chain. each ips λ ipc.
          relabel LinkError.failed (calls.new_handle (is_v6 ipc.address.ip)) >>= λ ipt.
          relabel LinkError.failed (
            setup_ip_masq ipt calls.append_unique calls.net_text calls.ip_text ipc.address chain
              (comment_of n args)))
      else pure tt

  -- `cmdAdd` between the result of IPAM and the second look at the bridge: the result to print
  unfoldable pub add_layer3 :
      NetConf → CmdArgs → Link → Text → AddResult → Text → Act LinkError S AddResult
  unfolding calc_gateways configure_iface await_port set_all_gateways masq_on
  add_layer3 n args br host_name result raw = lift (converted raw) >>= λ r.
      check_that (not (length r.ips == 0)) LinkError.missing_ip
      >> (lift (calc_gateways calls.net_text n r.ips r.routes) >>= λ c.
          let res : AddResult = record result { ips = c.0; routes = c.1.routes } in
          cont.enter
          >> (dad_off n args.if_name c.0
              >> (configure_iface cont args.if_name res
                  >> (await_port host_name retries
                      >> (announce args.if_name c.0
                          >> (set_all_gateways n br c.1 >>= λ v.
                              masq_on n args c.0 >> pure (with_interface v res)))))))
