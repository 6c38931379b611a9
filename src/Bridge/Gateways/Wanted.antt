-- ===== src/Bridge/Gateways/Wanted.antt =====
-- What the addresses and gateways are to be that `calcGateways` of plugins/main/bridge/bridge.go
-- returns, as a description of its own.
use plugins.Prelude.{
  ◌≡◌, ◌≢◌, ◌∙◌, refl, ap, List, [], ◌∷◌, map, Bool, true, false, ◌&&◌, not, Option, none, some, ok,
  Text, length, ◌==◌, if◌then◌else◌, arith,
}
use plugins.Prelude.Int.{ℤ, pos}
use plugins.Net.{Ip, IpNet, to4, slice, is_nil, mask_ip}
use plugins.Cidr.{next_ip}
use plugins.Dhcp.Options.{Route}
use plugins.Links.{Family, all, v4, v6, IpConfig}
use plugins.Bridge.{NetConf, GwState, info, family_of, calc_gateway_ip, with_gateway, calc_gateways}
use plugins.Bridge.Gateways.{is_of, gateways_of, calc_gateways-gws}

-- the gateway of the IPAM plugin or, on a gateway bridge, the address after that of the network
abbrev pub wanted_gateway : Bool → IpNet → Option Ip → Option Ip
wanted_gateway is_gw address (some gw) = some gw
wanted_gateway true address none = some (next_ip (slice (mask_ip address.ip address.mask)))
wanted_gateway false address none = none

-- The container's interface is the third of the result.
abbrev pub wanted : Bool → IpConfig → IpConfig
wanted is_gw ipc = record {
  interface = some (pos 2);
  address = ipc.address;
  gateway = wanted_gateway is_gw ipc.address ipc.gateway;
}

abbrev pub is_in : Family → Ip → Bool
is_in v4 ip = not (is_nil (to4 ip))
is_in v6 ip = is_nil (to4 ip) && (length ip == 16)
is_in all ip = false

-- On a gateway bridge, the gateways of the addresses of a family, in order, with their masks.
abbrev pub wanted_gateways : Bool → Family → List IpConfig → List IpNet
wanted_gateways is_gw f [] = []
wanted_gateways is_gw f (ipc ∷ ips) =
    let rest = wanted_gateways is_gw f ips in
    if is_gw && is_in f ipc.address.ip
    then record {
      ip = slice (wanted_gateway is_gw ipc.address ipc.gateway);
      mask = ipc.address.mask;
    }
      ∷ rest
    else rest

with_gateway-wanted :
    (is_gw : Bool) (address : IpNet) (interface : Option ℤ) (gw : Option Ip)
    → with_gateway is_gw (record { interface = interface; address = address; gateway = gw })
      ≡ wanted is_gw (record { interface = interface; address = address; gateway = gw })
unfolding calc_gateway_ip
with_gateway-wanted is_gw address interface (some gw) = refl
with_gateway-wanted true address interface none = refl
with_gateway-wanted false address interface none = refl

map-with_gateway :
    (is_gw : Bool) (ips : List IpConfig) → map (with_gateway is_gw) ips ≡ map (wanted is_gw) ips
map-with_gateway is_gw [] = refl
map-with_gateway is_gw (ipc ∷ ips) =
    ap (λ i. i ∷ map (with_gateway is_gw) ips)
      (with_gateway-wanted is_gw ipc.address ipc.interface ipc.gateway)
    ∙ ap (λ is. wanted is_gw ipc ∷ is) (map-with_gateway is_gw ips)

is_of-is_in : (f : Family) (ipc : IpConfig) → is_of f ipc ≡ is_in f ipc.address.ip
unfolding family_of
is_of-is_in v4 ipc = ground arith
is_of-is_in v6 ipc = ground arith
is_of-is_in all ipc = ground arith

gateways_of-wanted :
    (is_gw : Bool) (f : Family) (ips : List IpConfig)
    → gateways_of is_gw f ips ≡ wanted_gateways is_gw f ips
gateways_of-wanted is_gw f [] = refl
gateways_of-wanted is_gw f (ipc ∷ ips) =
    rw
      (
        is_of-is_in f ipc,
        with_gateway-wanted is_gw ipc.address ipc.interface ipc.gateway,
        gateways_of-wanted is_gw f ips,
      )
      refl

-- If calcGateways succeeds, every address of the result is for the container's interface, with the
-- gateway of the IPAM plugin or, for a gateway bridge, the address after that of the network; and
-- the gateways of each family are those of its addresses, with their masks, in order: none but for
-- a gateway bridge.
pub calc_gateways-wanted :
    (net_text : IpNet → Text) (n : NetConf) (ips : List IpConfig) (routes : List Route)
    (r : List IpConfig × GwState) (f : Family)
    → f ≢ all
    → calc_gateways net_text n ips routes ≡ ok r
    → (r.0 ≡ map (wanted n.is_gw) ips) × ((info f r.1).gws ≡ wanted_gateways n.is_gw f ips)
calc_gateways-wanted net_text n ips routes r f nf h =
    let (mapped, gws) = calc_gateways-gws net_text n ips routes r f nf h in
    (mapped ∙ map-with_gateway n.is_gw ips, gws ∙ gateways_of-wanted n.is_gw f ips)
