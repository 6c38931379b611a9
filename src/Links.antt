-- ===== src/Links.antt =====
-- pkg/ip/link_linux.go: links, and pairs of veth devices.
--
-- Netlink is a parameter, a record of operations over a state for each network namespace; a plugin
-- that enters a namespace goes on with the record of that namespace. A hardware address is its text.
-- The source of entropy, `net.ParseMAC` and the statistics of ethtool are parameters too. The errors
-- are those of netlink, and those that the code makes itself.
pub mod Veth
pub mod Configure
pub mod Expected
use plugins.Prelude.{
  ℕ, zero, suc, ◌+◌, ◌/◌, ◌%◌, List, [], ◌∷◌, ◌++◌, Bool, true, false, ◌&&◌, ◌||◌, not, Option,
  none, some, bit_and, Result, ok, err, Text, text, length, ◌==◌, leb, ltb, if◌then◌else◌,
}
use plugins.Prelude.Int.{ℤ, pos, negsuc}
use plugins.Prelude.Effects.{Act, pure, fail, lift, catch, relabel, ◌>>=◌, ◌>>◌}
use plugins.Net.{Ip, IpNet, to4, equal, is_unspecified}
use plugins.HostLocal.Dns.{Dns}
use plugins.Dhcp.Options.{Route}
use plugins.Sysctl.{Files, sysctl}

pub data LinkError : Type 0 where
  link_not_found exists no_entry failed : LinkError
  bad_mac name_exists no_unique_name pair_failed lookup_failed not_set_up : LinkError
  list_failed del_failed not_veth bad_peer_index no_interfaces bad_interface : LinkError
  ipv6_disabled add_failed route_failed no_match no_gateway no_route bad_family : LinkError
  bad_config bad_vlan mode_conflict unknown_ip other_address not_a_bridge : LinkError
  missing_ip port_down missing_prev_result name_missing bad_sandbox wrong_mac : LinkError
  wrong_promisc not_found requested print_failed : LinkError

-- the link types that the plugins ask for
pub data Kind : Type 0 where
  bridge veth other : Kind

-- `netlink.LinkAttrs`, with the type of the link
pub record Link : Type 0 where
  pub kind : Kind
  pub name : Text
  pub index : ℕ
  pub parent_index : ℤ
  pub master_index : ℕ
  pub mtu : ℤ
  pub hardware_addr : Text
  pub promisc : ℕ
  pub oper_up : Bool

-- `netlink.FAMILY_ALL` is 0.
pub data Family : Type 0 where
  all v4 v6 : Family

pub data Scope : Type 0 where
  universe link host nowhere : Scope

-- `netlink.Route`, as far as the plugins fill it in or read it
pub record NetRoute : Type 0 where
  pub dst : Option IpNet
  pub src : Option Ip
  pub gw : Option Ip
  pub table : ℕ
  pub flags : ℕ
  pub link_index : ℕ
  pub scope : Scope

pub record Netlink (S : Type 0) : Type 0 where
  -- to switch to the namespace
  pub enter : Act LinkError S (Unit {0})
  pub link_by_name : Text → Act LinkError S Link
  pub add_veth : Text → Text → ℤ → Option Text → Act LinkError S (Unit {0})
  pub add_bridge : Text → ℤ → Bool → Act LinkError S (Unit {0})
  pub link_del : Text → Act LinkError S (Unit {0})
  pub link_set_up : Link → Act LinkError S (Unit {0})
  pub link_set_name : Link → Text → Act LinkError S (Unit {0})
  pub set_promisc_on : Text → Act LinkError S (Unit {0})
  pub set_master : Link → Link → Act LinkError S (Unit {0})
  pub set_hairpin : Link → Bool → Act LinkError S (Unit {0})
  pub set_hardware_addr : Link → Text → Act LinkError S (Unit {0})
  pub bridge_vlan_add : Link → ℕ → Act LinkError S (Unit {0})
  pub addr_list : Link → Family → Act LinkError S (List IpNet)
  pub addr_add : Link → IpNet → Act LinkError S (Unit {0})
  pub addr_del : Link → IpNet → Act LinkError S (Unit {0})
  pub route_add : NetRoute → Act LinkError S (Unit {0})
  pub route_del : NetRoute → Act LinkError S (Unit {0})
  pub route_add_ecmp : NetRoute → Act LinkError S (Unit {0})
  -- the routes with a destination, and with a gateway where one is given
  pub route_list : Family → Option IpNet → Option (Option Ip) → Act LinkError S (List NetRoute)
  -- `peer_ifindex` in the statistics of ethtool
  pub peer_stat : Text → Act LinkError S (Option ℕ)
  -- the files of `sysctl.Sysctl`
  pub files : Files S

-- `current.Interface`, `current.IPConfig` and `current.Result`
pub record Interface : Type 0 where
  pub name : Text
  pub mac : Text
  pub sandbox : Text

pub record IpConfig : Type 0 where
  pub interface : Option ℤ
  pub address : IpNet
  pub gateway : Option Ip

pub record AddResult : Type 0 where
  pub interfaces : List Interface
  pub ips : List IpConfig
  pub routes : List Route
  pub dns : Dns

-- `if err != nil { continue }` and `_ = f()`: to go on whatever the result is
abbrev pub attempt : {S A : Type 0} → Act LinkError S A → Act LinkError S (Unit {0})
attempt m = catch m λ r. pure tt

-- an error for what exists already is none
abbrev pub unless_exists : {S : Type 0} → Result LinkError (Unit {0}) → Act LinkError S (Unit {0})
unless_exists (ok u) = pure u
unless_exists (err exists) = pure tt
unless_exists (err e) = fail e

abbrev hex_digit : ℕ → ℕ
hex_digit n = if ltb n 10 then b'0' + n else 87 + n

-- `%x` of bytes
unfoldable pub hex_text : List ℕ → Text
hex_text [] = []
hex_text (b ∷ bs) = hex_digit (b / 16) ∷ hex_digit (b % 16) ∷ hex_text bs

-- `IP.IsGlobalUnicast`
abbrev is_loopback : Ip → Bool
is_loopback ip = elim (to4 ip) [
  | some (a ∷ _) ↦ a == 127
  | _ ↦ equal ip (0 ∷ 0 ∷ 0 ∷ 0 ∷ 0 ∷ 0 ∷ 0 ∷ 0 ∷ 0 ∷ 0 ∷ 0 ∷ 0 ∷ 0 ∷ 0 ∷ 0 ∷ 1 ∷ [])
]

abbrev is_multicast : Ip → Bool
is_multicast ip =
    let is_16 = length ip == 16 in
    elim (to4 ip) [
      | some (a ∷ _) ↦ bit_and a 240 == 224
      | _ ↦ elim ip [ [] ↦ false | a ∷ _ ↦ is_16 && a == 255 ]
    ]

abbrev is_link_local : Ip → Bool
is_link_local ip =
    let is_16 = length ip == 16 in
    elim (to4 ip) [
      | some (a ∷ b ∷ _) ↦ a == 169 && b == 254
      | _ ↦ elim ip [ a ∷ b ∷ _ ↦ is_16 && a == 254 && bit_and b 192 == 128 | _ ↦ false ]
    ]

unfoldable pub is_global_unicast : Ip → Bool
unfolding to4 equal is_unspecified
is_global_unicast ip =
    (length ip == 4 || length ip == 16)
    && not (equal ip (255 ∷ 255 ∷ 255 ∷ 255 ∷ []))
    && not (is_unspecified ip)
    && not (is_loopback ip)
    && not (is_multicast ip)
    && not (is_link_local ip)

abbrev pub global_nets : List IpNet → List IpNet
unfolding is_global_unicast
global_nets [] = []
global_nets (n ∷ nets) =
    let rest = global_nets nets in if is_global_unicast n.ip then n ∷ rest else rest

-- `sysctl.Sysctl`, to read a name and to write it
module _ {S : Type 0} (nl : Netlink S) where
  abbrev pub read_sysctl : Text → Act LinkError S Text
  read_sysctl name = relabel failed (sysctl nl.files name [])

  abbrev pub write_sysctl : Text → Text → Act LinkError S Text
  write_sysctl name value = relabel failed (sysctl nl.files name (value ∷ []))

  -- we want to own the routes for this interface
  abbrev pub own_routes : Text → Act LinkError S (Unit {0})
  own_routes name =
      attempt (write_sysctl (text "net/ipv6/conf/" ++ name ++ text "/accept_ra") (text "0"))
