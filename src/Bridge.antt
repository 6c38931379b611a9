-- ===== src/Bridge.antt =====
-- plugins/main/bridge/bridge.go: the configuration, and the gateways of the addresses.
--
-- JSON decoding, `types.LoadArgs` and the text of networks are parameters. A decoded configuration
-- has no `mac` yet.
pub mod Gateways
pub mod Routes
pub mod Setup
pub mod Frame
pub mod Addresses
pub mod Layer3
pub mod Commands
pub mod Check
use plugins.Prelude.{
  ℕ, zero, suc, List, [], ◌∷◌, ◌++◌, Bool, true, false, ◌&&◌, ◌||◌, not, Option, none, some, Result,
  ok, err, ◌>>=◌, Text, text_eq, any, length, ◌==◌, ltb, if◌then◌else◌,
}
use plugins.Prelude.Int.{ℤ, pos, negsuc, ltb_ℤ}
use plugins.Net.{Ip, IpMask, IpNet, to4, slice, is_nil, mask_ip, v4_in_v6_prefix, ipv6_unspecified}
use plugins.Cidr.{next_ip}
use plugins.HostLocal.Dns.{Dns}
use plugins.Dhcp.Options.{Route}
use plugins.Links.{LinkError, Family, all, v4, v6, IpConfig}

pub record NetConf : Type 0 where
  pub name : Text
  pub ipam_type : Text
  pub dns : Dns
  pub br_name : Text
  pub is_gw : Bool
  pub is_default_gw : Bool
  pub force_address : Bool
  pub ip_masq : Bool
  pub mtu : ℤ
  pub hairpin_mode : Bool
  pub promisc_mode : Bool
  pub vlan : ℤ
  pub args_mac : Text
  pub runtime_mac : Text
  pub mac : Text

abbrev is_set : Text → Bool
is_set t = ltb 0 (length t)

-- `if mac != "" { n.mac = mac }`
abbrev pub with_mac : Text → NetConf → NetConf
with_mac mac n = if is_set mac then record n { mac = mac } else n

abbrev pub env_mac : (Text → Option Text) → Text → Result LinkError Text
env_mac load_args env_args =
    if is_set env_args
    then elim (load_args env_args) [ none ↦ err LinkError.bad_config | some mac ↦ ok mac ]
    else ok []

abbrev pub is_bad_vlan : ℤ → Bool
is_bad_vlan vlan = ltb_ℤ vlan (pos 0) || ltb_ℤ (pos 4094) vlan

unfoldable pub load_net_conf :
    (Text → Option NetConf) → (Text → Option Text) → Text → Text → Result LinkError NetConf
load_net_conf decode load_args bytes env_args = elim (decode bytes) [
  | none ↦ err LinkError.bad_config
  | some n ↦
      if is_bad_vlan n.vlan
      then err LinkError.bad_vlan
      else env_mac load_args env_args >>= λ mac.
          ok (with_mac n.runtime_mac (with_mac n.args_mac (with_mac mac n)))
]

-- `gwInfo`; no gateways is a nil slice
pub record GwInfo : Type 0 where
  pub gws : List IpNet
  pub family : Family
  pub default_route_found : Bool

abbrev pub no_gw_info : GwInfo
no_gw_info = record { gws = []; family = all; default_route_found = false }

unfoldable pub calc_gateway_ip : IpNet → Ip
unfolding mask_ip next_ip
calc_gateway_ip ipn = next_ip (slice (mask_ip ipn.ip ipn.mask))

-- the family of an address, as the `switch` of `calcGateways` finds it
unfoldable pub family_of : Ip → Option Family
unfolding to4
family_of ip = if not (is_nil (to4 ip)) then some v4 else if length ip == 16 then some v6 else none

-- `net.IPv4zero` has 16 bytes; its bytes are its mask too.
abbrev pub zero_of : Family → Ip
zero_of v4 = v4_in_v6_prefix ++ (0 ∷ 0 ∷ 0 ∷ 0 ∷ [])
zero_of _ = ipv6_unspecified

abbrev pub default_net : Family → IpNet
default_net f = record { ip = zero_of f; mask = zero_of f }

-- what the loop changes: the information of each family, and the routes
pub record GwState : Type 0 where
  pub gws_v4 : GwInfo
  pub gws_v6 : GwInfo
  pub routes : List Route

abbrev pub no_gateways : List Route → GwState
no_gateways routes = record { gws_v4 = no_gw_info; gws_v6 = no_gw_info; routes = routes }

abbrev pub info : Family → GwState → GwInfo
info v4 g = g.gws_v4
info _ g = g.gws_v6

abbrev pub set_info : Family → GwInfo → GwState → GwState
set_info v4 i g = record g { gws_v4 = i }
set_info _ i g = record g { gws_v6 = i }

abbrev pub with_gateway : Bool → IpConfig → IpConfig
unfolding calc_gateway_ip
with_gateway is_gw ipc =
    let at_2 : IpConfig = record ipc { interface = some (pos 2) } in
    if is_nil ipc.gateway && is_gw
    then record at_2 { gateway = some (calc_gateway_ip ipc.address) }
    else at_2

abbrev pub gateway_net : IpConfig → IpNet
gateway_net ipc = record { ip = slice ipc.gateway; mask = ipc.address.mask }

abbrev pub add_gw : Bool → Family → IpConfig → GwState → GwState
add_gw is_gw f ipc g =
    let i = info f g in
    if is_gw then set_info f (record i { gws = i.gws ++ (gateway_net ipc ∷ []) }) g else g

abbrev pub set_family : Family → GwState → GwState
set_family f g = let i = info f g in set_info f (record i { family = f }) g

module _ (net_text : IpNet → Text) where
  -- whether a route is a default route of a family with a gateway
  abbrev pub is_default_route : Family → Route → Bool
  is_default_route f r = not (is_nil r.gw) && text_eq (net_text (default_net f)) (net_text r.dst)

  abbrev pub default_route : Family → Option Ip → Route
  default_route f gw = record { dst = default_net f; gw = gw }

  -- whether a default route is wanted, and whether there is one
  abbrev pub default_step : Bool → Bool → Family → Option Ip → GwState → GwState
  default_step false there f gw g = g
  default_step true true f gw g =
      let i = info f g in set_info f (record i { default_route_found = true }) g
  default_step true false f gw g =
      let i = info f g in
      record (set_info f (record i { default_route_found = true }) g) {
        routes = g.routes ++ (default_route f gw ∷ []);
      }

  unfoldable pub add_default : Bool → Family → Option Ip → GwState → GwState
  add_default is_default_gw f gw g =
      default_step (is_default_gw && not (info f g).default_route_found)
        (any (is_default_route f) g.routes) f gw g

  -- one round of the loop of `calcGateways`, which changes the address in place
  abbrev pub gateway_round : NetConf → IpConfig → Family → GwState → GwState
  gateway_round n ipc f g =
      let ipc' = with_gateway n.is_gw ipc in
      add_gw n.is_gw f ipc' (add_default n.is_default_gw f ipc'.gateway (set_family f g))

  abbrev pub gateway_of_family :
      NetConf → IpConfig → GwState → Option Family → Result LinkError (IpConfig × GwState)
  gateway_of_family n ipc g none = err LinkError.unknown_ip
  gateway_of_family n ipc g (some f) = ok (with_gateway n.is_gw ipc, gateway_round n ipc f g)

  unfoldable pub calc_gateway : NetConf → IpConfig → GwState → Result LinkError (IpConfig × GwState)
  calc_gateway n ipc g = gateway_of_family n ipc g (family_of ipc.address.ip)

  unfoldable pub calc_each :
      NetConf → List IpConfig → GwState → Result LinkError (List IpConfig × GwState)
  calc_each n [] g = ok ([], g)
  calc_each n (ipc ∷ ips) g =
      calc_gateway n ipc g >>= λ c. calc_each n ips c.1 >>= λ r. ok (c.0 ∷ r.0, r.1)

  -- the addresses, the gateways and the routes
  unfoldable pub calc_gateways :
      NetConf → List IpConfig → List Route → Result LinkError (List IpConfig × GwState)
  unfolding calc_each
  calc_gateways n ips routes = calc_each n ips (no_gateways routes)
