-- ===== src/Links/Configure.antt =====
-- pkg/ipam/ipam_linux.go and pkg/ip/route_linux.go: the addresses and routes of an interface.
--
-- `SettleAddresses` waits and reads only, and its error is dropped: it is left out.
use plugins.Prelude.{
  List, [], ◌∷◌, ◌++◌, Bool, true, false, ◌&&◌, not, Option, none, some, ok, err, Text, text,
  text_eq, length, get_elem?, ◌==◌, if◌then◌else◌,
}
use plugins.Prelude.Int.{ℤ, pos, negsuc}
use plugins.Prelude.Effects.{Act, pure, catch, check_that, relabel, each, ◌>>=◌, ◌>>◌}
use plugins.Net.{Ip, IpNet, to4, slice, is_nil, ipv4_zero}
use plugins.Dhcp.Options.{Route}
use plugins.Links.{
  LinkError, Scope, universe, host, Link, Netlink, NetRoute, Interface, IpConfig, AddResult,
  read_sysctl, write_sysctl,
}

-- the gateways seen, and whether IPv6 has been enabled
pub record Seen : Type 0 where
  pub v4gw : Option Ip
  pub v6gw : Option Ip
  pub has_enabled : Bool

-- whether an index stands for the interface with a name
unfoldable pub is_index_of : List Interface → Text → ℤ → Bool
is_index_of interfaces name (pos i) = elim (get_elem? interfaces i) [
  | none ↦ false
  | some intf ↦ text_eq intf.name name
]
is_index_of interfaces name (negsuc n) = false

abbrev pub is_v4 : Ip → Bool
unfolding to4
is_v4 ip = not (is_nil (to4 ip))

abbrev pub saw_gateway : Option Ip → Seen → Seen
saw_gateway gw seen =
    if is_v4 (slice gw) && is_nil seen.v4gw
    then record seen { v4gw = gw }
    else if not (is_v4 (slice gw)) && is_nil seen.v6gw
    then record seen { v6gw = gw }
    else seen

-- the gateway of a route, or the first one seen of its family
unfoldable pub route_gateway : Seen → Route → Option Ip
route_gateway seen r = elim r.gw [
  | some gw ↦ some gw
  | none ↦
      if is_v4 r.dst.ip && not (is_nil seen.v4gw)
      then seen.v4gw
      else if not (is_v4 r.dst.ip) && not (is_nil seen.v6gw)
      then seen.v6gw
      else none
]

abbrev pub to_link : Option IpNet → Option Ip → Scope → Link → NetRoute
to_link dst gw scope l = record {
  dst = dst;
  src = none;
  gw = gw;
  table = 0;
  flags = 0;
  link_index = l.index;
  scope = scope;
}

module _ {S : Type 0} (nl : Netlink S) where
  unfoldable pub enable_ipv6 : Text → Act LinkError S (Unit {0})
  enable_ipv6 name =
      let sysctl_name = text "net/ipv6/conf/" ++ name ++ text "/disable_ipv6" in
      catch (read_sysctl nl sysctl_name) λ r. elim r [
        | err e ↦ pure tt
        | ok value ↦
            if text_eq value (text "0")
            then pure tt
            else relabel LinkError.ipv6_disabled (write_sysctl nl sysctl_name (text "0")) >> pure tt
      ]

  abbrev pub enable_once : Text → IpNet → Seen → Act LinkError S Seen
  unfolding enable_ipv6
  enable_once name address seen =
      if not seen.has_enabled && not (is_v4 address.ip)
      then enable_ipv6 (text "lo")
        >> (enable_ipv6 name >> pure (record seen { has_enabled = true }))
      else pure seen

  abbrev pub add_ip : Link → List Interface → Text → IpConfig → Seen → Act LinkError S Seen
  unfolding is_index_of
  add_ip l interfaces name ipc seen = elim ipc.interface [
    | none ↦ pure seen
    | some index ↦
        check_that (is_index_of interfaces name index) LinkError.bad_interface
        >> (enable_once name ipc.address seen >>= λ s.
            relabel LinkError.add_failed (nl.addr_add l ipc.address)
            >> pure (saw_gateway ipc.gateway s))
  ]

  unfoldable pub add_ips :
      Link → List Interface → Text → List IpConfig → Seen → Act LinkError S Seen
  add_ips l interfaces name [] seen = pure seen
  add_ips l interfaces name (ipc ∷ ips) seen =
      add_ip l interfaces name ipc seen >>= λ s. add_ips l interfaces name ips s

  abbrev pub add_result_route : Link → Seen → Route → Act LinkError S (Unit {0})
  unfolding route_gateway
  add_result_route l seen r =
      relabel LinkError.route_failed
        (nl.route_add_ecmp (to_link (some r.dst) (route_gateway seen r) universe l))

  unfoldable pub configure_iface : Text → AddResult → Act LinkError S (Unit {0})
  unfolding add_ips
  configure_iface name res =
      check_that (not (length res.interfaces == 0)) LinkError.no_interfaces
      >> (relabel LinkError.lookup_failed (nl.link_by_name name) >>= λ l.
          relabel LinkError.not_set_up (nl.link_set_up l)
          >> (add_ips l res.interfaces name res.ips
                (record { v4gw = none; v6gw = none; has_enabled = false })
              >>= λ seen. each res.routes (add_result_route l seen)))

  unfoldable pub add_route : IpNet → Option Ip → Link → Act LinkError S (Unit {0})
  add_route dst gw dev = nl.route_add (to_link (some dst) gw universe dev)

  unfoldable pub add_host_route : IpNet → Option Ip → Link → Act LinkError S (Unit {0})
  add_host_route dst gw dev = nl.route_add (to_link (some dst) gw host dev)

  -- `0.0.0.0/0`
  unfoldable pub add_default_route : Ip → Link → Act LinkError S (Unit {0})
  add_default_route gw dev = add_route (record { ip = ipv4_zero; mask = ipv4_zero }) (some gw) dev
