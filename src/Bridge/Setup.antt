-- ===== src/Bridge/Setup.antt =====
-- plugins/main/bridge/bridge.go: the bridge and its ports. A wrapped error is the error itself.
use plugins.Prelude.{
  ℕ, List, [], ◌∷◌, ◌++◌, Bool, false, not, Option, ok, err, Text, text, text_eq, itoa, ◌==◌,
  if◌then◌else◌,
}
use plugins.Prelude.Int.{ℤ, pos, negsuc, pos_part}
use plugins.Prelude.Effects.{Act, pure, fail, catch, relabel, ◌>>=◌, ◌>>◌}
use plugins.Links.{
  LinkError, Family, v4, Link, bridge, Netlink, unless_exists, Interface, own_routes,
}
use plugins.Links.Veth.{setup_veth}
use plugins.Masquerade.{SysFiles, enable_ip4_forward, enable_ip6_forward}
use plugins.Bridge.{NetConf}

abbrev pub interface_of : Link → Interface
interface_of l = record { name = l.name; mac = l.hardware_addr; sandbox = [] }

abbrev pub is_zero : ℤ → Bool
is_zero vlan = elim vlan [ pos n ↦ n == 0 | negsuc n ↦ false ]

module _ {S : Type 0} (host : Netlink S) where
  abbrev pub bridge_only : Link → Act LinkError S Link
  bridge_only l = elim l.kind [ bridge ↦ pure l | _ ↦ fail LinkError.not_a_bridge ]

  unfoldable pub bridge_by_name : Text → Act LinkError S Link
  bridge_by_name name =
      relabel LinkError.lookup_failed (host.link_by_name name) >>= λ l. bridge_only l

  unfoldable pub ensure_bridge : Text → ℤ → Bool → Bool → Act LinkError S Link
  unfolding bridge_by_name
  ensure_bridge name mtu promisc_mode vlan_filtering =
      catch (host.add_bridge name mtu vlan_filtering) unless_exists
      >> ((if promisc_mode then host.set_promisc_on name else pure tt)
          >> (bridge_by_name name >>= λ br.
              own_routes host name >> (host.link_set_up br >> pure br)))

  unfoldable pub setup_bridge : NetConf → Act LinkError S (Link × Interface)
  unfolding ensure_bridge
  setup_bridge n = ensure_bridge n.br_name n.mtu n.promisc_mode (not (is_zero n.vlan)) >>= λ br.
      pure (br, interface_of br)

module _ {S : Type 0} (entropy : Act LinkError S (List ℕ)) (parse_mac : Text → Option Text)
    (host : Netlink S) where
  -- `setupVeth` in a network namespace with a path: the ends in the host and in the namespace
  unfoldable pub setup_veth_pair :
      Netlink S → Text → Link → Text → ℤ → Bool → ℤ → Text → Act LinkError S (Interface × Interface)
  unfolding setup_veth
  setup_veth_pair cont path br if_name mtu hairpin_mode vlan mac =
      cont.enter
      >> (setup_veth entropy parse_mac cont host if_name mtu mac >>= λ ends.
          host.link_by_name ends.0.name >>= λ host_veth.
          host.set_master host_veth br
          >> (host.set_hairpin host_veth hairpin_mode
              >> ((if is_zero vlan then pure tt else host.bridge_vlan_add host_veth (pos_part vlan))
                  >> pure (
                    record { name = ends.0.name; mac = host_veth.hardware_addr; sandbox = [] },
                    record { name = ends.1.name; mac = ends.1.hardware_addr; sandbox = path },
                  ))))

  unfoldable pub ensure_vlan_interface : Act LinkError S Text → Link → ℤ → Act LinkError S Link
  unfolding setup_veth_pair
  ensure_vlan_interface current_ns br vlan =
      let name = br.name ++ text "." ++ itoa (pos_part vlan) in
      catch (host.link_by_name name) λ r. elim r [
        | ok l ↦ pure l
        | err LinkError.link_not_found ↦ current_ns >>= λ path.
            setup_veth_pair host path br name br.mtu false vlan [] >>= λ ends.
            host.link_by_name ends.1.name
        | err _ ↦ fail LinkError.lookup_failed
      ]

-- The files of a network namespace.
module _ {S : Type 0} (nl : Netlink S) where
  abbrev dad_file : Text → Text → Text
  dad_file name file = text "/proc/sys/net/ipv6/conf/" ++ name ++ text "/" ++ file

  unfoldable pub disable_ipv6_dad : Text → Act LinkError S (Unit {0})
  disable_ipv6_dad name =
      let write =
        relabel LinkError.failed
          (nl.files.write_file (dad_file name (text "accept_dad")) (text "0")) in
      catch (relabel LinkError.failed (nl.files.read_file (dad_file name (text "enhanced_dad"))))
        λ r. elim r [
          | ok enh ↦ if text_eq enh (text "1" ++ (10 ∷ [])) then pure tt else write
          | err e ↦ write
        ]

unfoldable pub enable_ip_forward : {S : Type 0} → SysFiles S → Family → Act LinkError S (Unit {0})
enable_ip_forward files v4 = relabel LinkError.failed (enable_ip4_forward files)
enable_ip_forward files _ = relabel LinkError.failed (enable_ip6_forward files)
