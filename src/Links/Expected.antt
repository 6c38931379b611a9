-- ===== src/Links/Expected.antt =====
-- pkg/ip/utils_linux.go: whether addresses and routes are those of a previous result.
--
-- The text of a network, `netlink.Addr.Equal` and the network that `net.ParseCIDR` reads from the
-- text of an address are parameters. A list of routes that is nil is empty.
use plugins.Prelude.{
  List, [], ◌∷◌, Bool, true, false, not, Option, none, some, Text, text, text_eq, any, length, ◌==◌,
  if◌then◌else◌,
}
use plugins.Prelude.Effects.{Act, fail, check_that, relabel, each, ◌>>=◌, ◌>>◌}
use plugins.Net.{IpNet, to4, is_nil}
use plugins.Dhcp.Options.{Route}
use plugins.Links.{LinkError, Family, all, v4, v6, Netlink, IpConfig}

abbrev is_empty {ℓ} : {A : Type ℓ} → List A → Bool
is_empty [] = true
is_empty (x ∷ xs) = false

abbrev pub family_of : IpNet → Family
unfolding to4
family_of n = if is_nil (to4 n.ip) then v6 else v4

module _ {S : Type 0} (nl : Netlink S) (net_text : IpNet → Text) (addr_equal : IpNet → IpNet → Bool)
    (prefix_of : IpNet → Option IpNet) where
  abbrev pub validate_ip : Text → IpConfig → Act LinkError S (Unit {0})
  validate_ip name ipc = relabel LinkError.lookup_failed (nl.link_by_name name) >>= λ l.
      relabel LinkError.list_failed (nl.addr_list l all) >>= λ addrs.
      check_that (any (λ a. addr_equal a ipc.address) addrs) LinkError.no_match
      >> (relabel LinkError.list_failed
            (nl.route_list (family_of ipc.address) (prefix_of ipc.address) none)
          >>= λ gwy. check_that (not (is_empty gwy)) LinkError.no_gateway)

  unfoldable pub validate_expected_interface_ips : Text → List IpConfig → Act LinkError S (Unit {0})
  validate_expected_interface_ips name ips = each ips (validate_ip name)

  -- the family of a route and the text of its default route
  abbrev pub route_family : IpNet → Option (Family × Text)
  unfolding to4
  route_family dst =
      if not (is_nil (to4 dst.ip))
      then some (v4, text "0.0.0.0/0")
      else if length dst.ip == 16
      then some (v6, text "::/0")
      else none

  abbrev pub validate_route : Route → Act LinkError S (Unit {0})
  validate_route r = elim (route_family r.dst) [
    | none ↦ fail LinkError.bad_family
    | some (family, default) ↦
        relabel LinkError.list_failed (
          if text_eq (net_text r.dst) default
          then nl.route_list family none none
          else nl.route_list family (some r.dst) (some r.gw))
        >>= λ found. check_that (not (is_empty found)) LinkError.no_route
  ]

  unfoldable pub validate_expected_route : List Route → Act LinkError S (Unit {0})
  validate_expected_route routes = each routes validate_route
