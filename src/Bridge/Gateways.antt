-- ===== src/Bridge/Gateways.antt =====
-- What `calcGateways` of plugins/main/bridge/bridge.go makes of the addresses and routes.
pub mod Wanted
use mathlib.Core.List.{append-nil, append_assoc}
use plugins.Prelude.{
  ◌≡◌, ◌≢◌, ◌⊎◌, inl, inr, refl, sym, ap, ◌∙◌, List, [], ◌∷◌, ◌++◌, map, Bool, true, false, ◌&&◌,
  not, Option, none, some, ok, ◌>>=◌, Text, any, length, ◌==◌, if◌then◌else◌, Bool-cases, >>=-eq-ok,
}
use plugins.Net.{Ip, IpNet, to4, is_nil}
use plugins.Dhcp.Options.{Route}
use plugins.Links.{Family, all, v4, v6, IpConfig}
use plugins.Bridge.{
  NetConf, GwInfo, GwState, info, set_info, set_family, family_of, default_route, is_default_route,
  default_step, add_default, with_gateway, gateway_net, add_gw, gateway_round, gateway_of_family,
  calc_gateway, no_gateways, calc_each, calc_gateways,
}

abbrev pub same_family : Family → Family → Bool
same_family v4 v4 = true
same_family v6 v6 = true
same_family _ _ = false

abbrev of_found : Family → Option Family → Bool
of_found f none = false
of_found f (some g) = same_family f g

-- whether an address is one of a family
abbrev pub is_of : Family → IpConfig → Bool
is_of f ipc = of_found f (family_of ipc.address.ip)

family_of-cases : (ip : Ip) (f : Family) → family_of ip ≡ some f → (f ≡ v4) ⊎ (f ≡ v6)
unfolding family_of
family_of-cases ip f h = elim (Bool-cases (is_nil (to4 ip))) [
  | inl e ↦ elim (Bool-cases (length ip == 16)) [
    | inl k ↦ let h' = rw (e, k) at h in inr (sym (cc))
    | inr k ↦ let h' = rw (e, k) at h in cc
  ]
  | inr e ↦ let h' = rw e at h in inl (sym (cc))
]

-- the gateways of the addresses of a family, in order
abbrev pub gateways_of : Bool → Family → List IpConfig → List IpNet
gateways_of is_gw f [] = []
gateways_of is_gw f (ipc ∷ ips) =
    let rest = gateways_of is_gw f ips in
    if is_gw && is_of f ipc then gateway_net (with_gateway is_gw ipc) ∷ rest else rest

none_yet : (f : Family) (routes : List Route) → (info f (no_gateways routes)).gws ≡ []
none_yet v4 routes = refl
none_yet v6 routes = refl
none_yet all routes = refl

module _ (net_text : IpNet → Text) where
  set_info-gws :
      (f f' : Family) (i : GwInfo) (g : GwState) (rs : List Route)
      → i.gws ≡ (info f' g).gws
      → (info f (record (set_info f' i g) { routes = rs })).gws ≡ (info f g).gws
  set_info-gws v4 v4 i g rs h = h
  set_info-gws v4 v6 i g rs h = refl
  set_info-gws v4 all i g rs h = refl
  set_info-gws v6 v4 i g rs h = refl
  set_info-gws v6 v6 i g rs h = h
  set_info-gws v6 all i g rs h = h
  set_info-gws all v4 i g rs h = refl
  set_info-gws all v6 i g rs h = h
  set_info-gws all all i g rs h = h

  default_step-gws :
      (b there : Bool) (f f' : Family) (gw : Option Ip) (g : GwState)
      → (info f (default_step net_text b there f' gw g)).gws ≡ (info f g).gws
  default_step-gws false there f f' gw g = refl
  default_step-gws true true f f' gw g =
      let i = info f' g in
      set_info-gws f f' (record i { default_route_found = true }) g
        (set_info f' (record i { default_route_found = true }) g).routes refl
  default_step-gws true false f f' gw g =
      let i = info f' g in
      set_info-gws f f' (record i { default_route_found = true }) g
        (g.routes ++ (default_route net_text f' gw ∷ [])) refl

  -- The gateway of an address goes to its own family.
  add_gw-gws :
      (is_gw : Bool) (f f' : Family) (ipc : IpConfig) (g : GwState)
      → f ≢ all
      → f' ≢ all
      → (info f (add_gw is_gw f' ipc g)).gws ≡ (
          if is_gw && same_family f f'
          then (info f g).gws ++ (gateway_net ipc ∷ [])
          else (info f g).gws)
  add_gw-gws false f f' ipc g h h' = refl
  add_gw-gws true v4 v4 ipc g h h' = refl
  add_gw-gws true v4 v6 ipc g h h' = refl
  add_gw-gws true v6 v4 ipc g h h' = refl
  add_gw-gws true v6 v6 ipc g h h' = refl
  add_gw-gws true all f' ipc g h h' = elim (h refl) [ ]
  add_gw-gws true v4 all ipc g h h' = elim (h' refl) [ ]
  add_gw-gws true v6 all ipc g h h' = elim (h' refl) [ ]

  -- a round of the loop that succeeds
  pub calc_gateway-ok :
      (n : NetConf) (ipc : IpConfig) (g : GwState) (c : IpConfig × GwState)
      → calc_gateway net_text n ipc g ≡ ok c
      → (f : Family) × (family_of ipc.address.ip ≡ some f)
        × (f ≢ all)
        × (c ≡ (with_gateway n.is_gw ipc, gateway_round net_text n ipc f g))
  unfolding calc_gateway
  calc_gateway-ok n ipc g c h = go (family_of ipc.address.ip) (family_of-cases ipc.address.ip) h
    where
      go :
          (o : Option Family)
          → ((f : Family) → o ≡ some f → (f ≡ v4) ⊎ (f ≡ v6))
          → gateway_of_family net_text n ipc g o ≡ ok c
          → (f : Family) × (o ≡ some f)
            × (f ≢ all)
            × (c ≡ (with_gateway n.is_gw ipc, gateway_round net_text n ipc f g))
      go none cases k = cc
      go (some f) cases k = (f, refl, λ is_all. elim (cases f refl) [ inl v ↦ cc | inr v ↦ cc ], cc)

  gateway_round-gws :
      (n : NetConf) (ipc : IpConfig) (f f' : Family) (g : GwState)
      → f ≢ all
      → f' ≢ all
      → (info f (gateway_round net_text n ipc f' g)).gws ≡ (
          if n.is_gw && same_family f f'
          then (info f g).gws ++ (gateway_net (with_gateway n.is_gw ipc) ∷ [])
          else (info f g).gws)
  unfolding add_default
  gateway_round-gws n ipc f f' g h h' =
      let ipc' = with_gateway n.is_gw ipc in
      let g' = set_family f' g in
      let i = info f' g in
      let kept : (info f (add_default net_text n.is_default_gw f' ipc'.gateway g')).gws
          ≡ (info f g).gws =
        default_step-gws (n.is_default_gw && not (info f' g').default_route_found)
          (any (is_default_route net_text f') g'.routes) f f' ipc'.gateway g'
        ∙ set_info-gws f f' (record i { family = f' }) g g'.routes refl in
      rw kept at (
        add_gw-gws n.is_gw f f' ipc' (add_default net_text n.is_default_gw f' ipc'.gateway g') h h')

  -- On success every address is for the container's interface and has its gateway, and the gateways
  -- of each family are those of its addresses, in order.
  calc_each-gws :
      (n : NetConf) (ips : List IpConfig) (g : GwState) (r : List IpConfig × GwState) (f : Family)
      → f ≢ all
      → calc_each net_text n ips g ≡ ok r
      → (r.0 ≡ map (with_gateway n.is_gw) ips)
        × ((info f r.1).gws ≡ (info f g).gws ++ gateways_of n.is_gw f ips)
  unfolding calc_each
  calc_each-gws n [] g r f nf h = let k : ([], g) ≡ r = cc in rw (← k) (refl, sym (append-nil _))
  calc_each-gws n (ipc ∷ ips) g r f nf h =
      let (c, next, first) =
        >>=-eq-ok
          (λ (c : IpConfig × GwState). calc_each net_text n ips c.1 >>= λ r. ok (c.0 ∷ r.0, r.1))
          (calc_gateway net_text n ipc g) h in
      let (r', eq, rest) =
        >>=-eq-ok (λ (r : List IpConfig × GwState). ok (c.0 ∷ r.0, r.1))
          (calc_each net_text n ips c.1) next in
      let (fam, e, nf', made) = calc_gateway-ok n ipc g c first in
      let (mapped, gws) = calc_each-gws n ips c.1 r' f nf rest in
      let head : (info f c.1).gws ≡ (
          if n.is_gw && same_family f fam
          then (info f g).gws ++ (gateway_net (with_gateway n.is_gw ipc) ∷ [])
          else (info f g).gws) =
        rw made (gateway_round-gws n ipc f fam g nf nf') in
      let made_r : (c.0 ∷ r'.0, r'.1) ≡ r = cc in
      let c0 : c.0 ≡ with_gateway n.is_gw ipc = ap (λ z. z.0) made in
      (
        sym (ap (λ z. z.0) made_r)
            ∙ ap (λ i. i ∷ r'.0) c0
            ∙ ap (λ rs. with_gateway n.is_gw ipc ∷ rs) mapped,
        rw (sym (ap (λ z. z.1) made_r), e)
            (elim (Bool-cases (n.is_gw && same_family f fam)) [
              | inl b ↦ rw b (
                  gws
                  ∙ ap (λ z. z ++ gateways_of n.is_gw f ips) (rw b at head)
                  ∙ append_assoc (info f g).gws (gateway_net (with_gateway n.is_gw ipc) ∷ [])
                      (gateways_of n.is_gw f ips))
              | inr b ↦ rw b (gws ∙ ap (λ z. z ++ gateways_of n.is_gw f ips) (rw b at head))
            ]),
      )

-- If calcGateways succeeds, the addresses of the result are those of the loop's rounds, and so are
-- the gateways of each family.
pub calc_gateways-gws :
    (net_text : IpNet → Text) (n : NetConf) (ips : List IpConfig) (routes : List Route)
    (r : List IpConfig × GwState) (f : Family)
    → f ≢ all
    → calc_gateways net_text n ips routes ≡ ok r
    → (r.0 ≡ map (with_gateway n.is_gw) ips) × ((info f r.1).gws ≡ gateways_of n.is_gw f ips)
unfolding calc_gateways
calc_gateways-gws net_text n ips routes r f nf h =
    let (mapped, gws) = calc_each-gws net_text n ips (no_gateways routes) r f nf h in
    (mapped, gws ∙ ap (λ l. l ++ gateways_of n.is_gw f ips) (none_yet f routes))
