-- ===== src/Ptp.antt =====
-- plugins/main/ptp/ptp.go, after JSON decoding. A wrapped error is the error itself.
--
-- What the plugin calls beside netlink is the record that bridge has for it.
pub mod Release
pub mod Commands
use plugins.Prelude.{
  ℕ, List, [], ◌∷◌, map, Bool, true, false, ◌&&◌, ◌||◌, not, Option, none, some, Result, ok, err,
  Text, text_eq, length, ◌==◌, ltb, if◌then◌else◌,
}
use plugins.Prelude.Int.{ℤ, pos}
use plugins.Prelude.Effects.{Act, pure, fail, lift, catch, check_that, relabel, each, ◌>>=◌, ◌>>◌}
use plugins.Net.{Ip, IpNet, to4, slice, is_nil, mask_ip, cidr_mask}
use plugins.HostLocal.Dns.{Dns}
use plugins.Masquerade.{enable_forward, setup_ip_masq, teardown_ip_masq}
use plugins.ChainNames.{format_chain_name, format_comment}
use plugins.Links.{
  LinkError, Scope, universe, link, nowhere, Link, Kind, veth, Netlink, NetRoute, Interface,
  IpConfig, AddResult, attempt, unless_exists,
}
use plugins.Links.Veth.{setup_veth, del_link_by_name_addr}
use plugins.Links.Configure.{configure_iface, add_host_route}
use plugins.Links.Expected.{validate_expected_interface_ips, validate_expected_route}
use plugins.Bridge.Layer3.{Calls, CmdArgs}
use plugins.Bridge.Check.{CheckCalls, is_veth, mac_fits, no_interface, prev_result}

-- `types.DNS`, with the slices that are nil
pub record DnsConf : Type 0 where
  pub nameservers : Option (List Text)
  pub domain : Text
  pub search_list : Option (List Text)
  pub options : Option (List Text)

pub record NetConf : Type 0 where
  pub name : Text
  pub ipam_type : Text
  pub ip_masq : Bool
  pub mtu : ℤ
  pub dns : DnsConf

abbrev is_set : Text → Bool
is_set t = ltb 0 (length t)

abbrev texts : Option (List Text) → List Text
texts none = []
texts (some ts) = ts

unfoldable pub dns_conf_set : DnsConf → Bool
dns_conf_set d =
    not (is_nil d.nameservers)
    || not (is_nil d.search_list)
    || not (is_nil d.options)
    || is_set d.domain

abbrev pub with_dns : DnsConf → AddResult → AddResult
unfolding dns_conf_set
with_dns d r =
    if dns_conf_set d
    then record r {
      dns = record {
        nameservers = texts d.nameservers;
        domain = d.domain;
        search_list = texts d.search_list;
        options = texts d.options;
      };
    }
    else r

-- the network of one address: `net.CIDRMask(32, 32)`, or 128 for IPv6
abbrev pub single : Ip → IpConfig → IpNet
unfolding to4 cidr_mask
single ip ipc = record {
  ip = ip;
  mask = if is_nil (to4 ipc.address.ip) then cidr_mask 16 128 else cidr_mask 4 32;
}

abbrev pub subnet : IpConfig → IpNet
unfolding mask_ip
subnet ipc = record {
  ip = slice (mask_ip ipc.address.ip ipc.address.mask);
  mask = ipc.address.mask;
}

abbrev pub route_of : ℕ → IpNet → Option Ip → Option Ip → Scope → NetRoute
route_of index dst gw src scope = record {
  dst = some dst;
  src = src;
  gw = gw;
  table = 0;
  flags = 0;
  link_index = index;
  scope = scope;
}

abbrev pub on_interface_1 : IpConfig → IpConfig
on_interface_1 ipc = record ipc { interface = some (pos 1) }

module _ {S : Type 0} (calls : Calls S) (host cont : Netlink S) where
  -- the routes of an address in the container: the one that was added by itself is replaced
  unfoldable pub route_by_gateway : ℕ → IpConfig → Act LinkError S (Unit {0})
  route_by_gateway index ipc =
      cont.route_del (route_of index (subnet ipc) none none nowhere)
      >> (cont.route_add
            (route_of index (single (slice ipc.gateway) ipc) none (some ipc.address.ip) link)
          >> cont.route_add
              (route_of index (subnet ipc) ipc.gateway (some ipc.address.ip) universe))

  abbrev pub arp_for : IpConfig → Act LinkError S (Unit {0})
  unfolding to4
  arp_for ipc =
      if is_nil (to4 ipc.address.ip) then pure tt else attempt (calls.gratuitous_arp ipc.address.ip)

  -- the host's interface, and the result with what the plugin has filled in
  unfoldable pub setup_container_veth :
      Text → Text → ℤ → AddResult → Act LinkError S (Interface × AddResult)
  unfolding setup_veth configure_iface route_by_gateway
  setup_container_veth path if_name mtu pr =
      cont.enter
      >> (setup_veth calls.entropy calls.parse_mac cont host if_name mtu [] >>= λ ends.
          let host_if : Interface = record {
            name = ends.0.name;
            mac = ends.0.hardware_addr;
            sandbox = [];
          } in
          let cont_if : Interface = record {
            name = ends.1.name;
            mac = ends.1.hardware_addr;
            sandbox = path;
          } in
          let res : AddResult = record pr {
            interfaces = host_if ∷ cont_if ∷ [];
            ips = map on_interface_1 pr.ips;
          } in
          configure_iface cont if_name res
          >> (calls.interface_by_name if_name >>= λ index.
              each res.ips (route_by_gateway index)
              >> (each res.ips arp_for >> pure (host_if, res))))

  abbrev pub host_side : Link → IpConfig → Act LinkError S (Unit {0})
  unfolding add_host_route
  host_side l ipc =
      host.addr_add l (single (slice ipc.gateway) ipc)
      >> catch (add_host_route host (single ipc.address.ip ipc) none l) unless_exists

  unfoldable pub setup_host_veth : Text → List IpConfig → Act LinkError S (Unit {0})
  setup_host_veth name ips =
      relabel LinkError.lookup_failed (host.link_by_name name) >>= λ l. each ips (host_side l)

  abbrev pub chain_of : NetConf → CmdArgs → Act LinkError S Text
  unfolding format_chain_name
  chain_of conf args = elim (format_chain_name calls.sha512_hex conf.name args.container_id) [
    | none ↦ fail LinkError.failed
    | some chain ↦ pure chain
  ]

  abbrev pub comment_of : NetConf → CmdArgs → Text
  unfolding format_comment
  comment_of conf args = format_comment calls.quote conf.name args.container_id

  unfoldable pub masq_on : NetConf → CmdArgs → List IpConfig → Act LinkError S (Unit {0})
  unfolding setup_ip_masq to4
  masq_on conf args ips =
      if conf.ip_masq
      then (chain_of conf args >>= λ chain. each ips λ ipc.
          relabel LinkError.failed (calls.new_handle (is_nil (to4 ipc.address.ip))) >>= λ ipt.
          relabel LinkError.failed (
            setup_ip_masq ipt calls.append_unique calls.net_text calls.ip_text ipc.address chain
              (comment_of conf args)))
      else pure tt

  -- the deferred function of `cmdAdd`, for the errors that the variable `err` has
  abbrev pub released : {A : Type 0} → NetConf → CmdArgs → Act LinkError S A → Act LinkError S A
  released conf args m = catch m λ r. elim r [
    | ok a ↦ pure a
    | err e ↦ attempt (calls.exec_del conf.ipam_type args.stdin) >> fail e
  ]

  abbrev pub converted : Text → Result LinkError AddResult
  converted raw = elim (calls.new_result raw) [ none ↦ err LinkError.bad_config | some r ↦ ok r ]

  -- `cmdAdd` once forwarding is enabled
  unfoldable pub connect : NetConf → CmdArgs → AddResult → Act LinkError S AddResult
  unfolding setup_container_veth setup_host_veth masq_on
  connect conf args r =
      calls.open_ns args.netns
      >> (setup_container_veth args.netns args.if_name conf.mtu r >>= λ made.
          setup_host_veth made.0.name made.1.ips
          >> (masq_on conf args made.1.ips >> pure (with_dns conf.dns made.1)))

  -- `cmdAdd` after the IPAM plugin: two of the errors are not in `err`
  unfoldable pub add_from : NetConf → CmdArgs → Text → Act LinkError S (Unit {0})
  unfolding connect
  add_from conf args raw = released conf args (lift (converted raw)) >>= λ r.
      check_that (not (length r.ips == 0)) LinkError.missing_ip
      >> (relabel LinkError.failed
            (enable_forward calls.files (map (λ (ipc : IpConfig). ipc.address) r.ips))
          >> (released conf args (connect conf args r) >>= λ res. calls.print_result res))

  unfoldable pub cmd_add : NetConf → CmdArgs → Act LinkError S (Unit {0})
  unfolding add_from
  cmd_add conf args = calls.exec_add conf.ipam_type args.stdin >>= λ raw. add_from conf args raw
