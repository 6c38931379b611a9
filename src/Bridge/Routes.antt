-- ===== src/Bridge/Routes.antt =====
-- The default routes that `calcGateways` of plugins/main/bridge/bridge.go adds.
pub mod Loop
use plugins.Prelude.{
  ℕ, zero, suc, ◌+◌, ◌≤◌, ◌≡◌, ◌≢◌, ◌⊎◌, inl, inr, refl, sym, ap, ◌∙◌, List, [], ◌∷◌, ◌++◌, Bool,
  true, false, ◌&&◌, ◌||◌, not, Option, none, some, ok, ◌>>=◌, Text, text_eq, text_eq-eq,
  text_eq_self, any, ◌==◌, if◌then◌else◌, arith, Bool-cases, Option-cases, >>=-eq-ok,
}
use plugins.Net.{Ip, IpNet, is_nil}
use plugins.Dhcp.Options.{Route}
use plugins.Links.{Family, all, v4, v6, IpConfig}
use plugins.Bridge.{
  NetConf, GwInfo, GwState, gateway_net, add_gw, calc_gateway_ip, info, set_info, set_family,
  default_net, default_route, is_default_route, default_step, add_default, with_gateway,
  gateway_round, calc_gateway, no_gateways, calc_each, calc_gateways,
}
use plugins.Bridge.Gateways.{same_family, is_of, calc_gateway-ok}

pub set_info-found :
    (f f' : Family) (i : GwInfo) (g : GwState)
    → i.default_route_found ≡ (info f' g).default_route_found
    → (info f (set_info f' i g)).default_route_found ≡ (info f g).default_route_found
set_info-found v4 v4 i g h = h
set_info-found v4 v6 i g h = refl
set_info-found v4 all i g h = refl
set_info-found v6 v4 i g h = refl
set_info-found v6 v6 i g h = h
set_info-found v6 all i g h = h
set_info-found all v4 i g h = refl
set_info-found all v6 i g h = h
set_info-found all all i g h = h

pub add_gw-found :
    (is_gw : Bool) (f f' : Family) (ipc : IpConfig) (g : GwState)
    → (info f (add_gw is_gw f' ipc g)).default_route_found ≡ (info f g).default_route_found
add_gw-found false f f' ipc g = refl
add_gw-found true f f' ipc g =
    let i = info f' g in
    set_info-found f f' (record i { gws = i.gws ++ (gateway_net ipc ∷ []) }) g refl

pub gateway-with_gateway :
    (is_gw : Bool) (ipc : IpConfig)
    → is_gw ≡ true
    → (gw : Ip) × ((with_gateway is_gw ipc).gateway ≡ some gw)
unfolding with_gateway
gateway-with_gateway true ipc h = go ipc.gateway
  where
    go :
        (o : Option Ip)
        → (gw : Ip) × ((with_gateway true (record ipc { gateway = o })).gateway ≡ some gw)
    go none = (calc_gateway_ip ipc.address, refl)
    go (some gw) = (gw, refl)
gateway-with_gateway false ipc h = cc

-- one more where there is none
abbrev pub ensured : Bool → ℕ → ℕ
ensured wanted n = if wanted && (n == 0) then 1 else n

module _ (net_text : IpNet → Text) where
  -- how many default routes of a family there are
  abbrev pub count : Family → List Route → ℕ
  count f [] = 0
  count f (r ∷ routes) =
      let rest = count f routes in if is_default_route net_text f r then rest + 1 else rest

  count-append : (f : Family) (rs qs : List Route) → count f (rs ++ qs) ≡ count f rs + count f qs
  count-append f [] qs = omega arith
  count-append f (r ∷ rs) qs = ground (arith, count-append f rs qs)

  pub any-count :
      (f : Family) (rs : List Route) → any (is_default_route net_text f) rs ≡ not (count f rs == 0)
  any-count f [] = refl
  any-count f (r ∷ rs) = ground (arith, any-count f rs)

module _ (net_text : IpNet → Text)
    (apart : text_eq (net_text (default_net v4)) (net_text (default_net v6)) ≡ false) where
  apart_back : text_eq (net_text (default_net v6)) (net_text (default_net v4)) ≡ false
  apart_back = elim (Bool-cases (text_eq (net_text (default_net v6)) (net_text (default_net v4)))) [
    | inl e ↦
        let same = text_eq-eq (net_text (default_net v6)) (net_text (default_net v4)) e in
        let self = text_eq_self (net_text (default_net v4)) in let no = rw same at apart in cc
    | inr e ↦ e
  ]

  -- A route that is added counts for its family.
  count-default_route :
      (f f' : Family) (gw : Ip)
      → f ≢ all
      → f' ≢ all
      → count net_text f (default_route net_text f' (some gw) ∷ [])
        ≡ (if same_family f f' then 1 else 0)
  count-default_route v4 v4 gw h h' = rw (text_eq_self (net_text (default_net v4))) refl
  count-default_route v6 v6 gw h h' = rw (text_eq_self (net_text (default_net v6))) refl
  count-default_route v4 v6 gw h h' = rw apart refl
  count-default_route v6 v4 gw h h' = rw apart_back refl
  count-default_route all f' gw h h' = elim (h refl) [ ]
  count-default_route v4 all gw h h' = elim (h' refl) [ ]
  count-default_route v6 all gw h h' = elim (h' refl) [ ]

  pub set_info-routes : (f : Family) (g : GwState) → (i : _) → (set_info f i g).routes ≡ g.routes
  set_info-routes v4 g i = refl
  set_info-routes v6 g i = refl
  set_info-routes all g i = refl

  count-same :
      (f f' : Family) (rs : List Route)
      → same_family f f' ≡ true
      → count net_text f rs ≡ count net_text f' rs
  count-same v4 v4 rs h = refl
  count-same v6 v6 rs h = refl
  count-same v4 v6 rs h = cc
  count-same v4 all rs h = cc
  count-same v6 v4 rs h = cc
  count-same v6 all rs h = cc
  count-same all f' rs h = cc

  pub count-default_step :
      (b there : Bool) (f f' : Family) (gw : Ip) (g : GwState)
      → f ≢ all
      → f' ≢ all
      → there ≡ not (count net_text f' g.routes == 0)
      → (b ≡ false → 1 ≤ count net_text f' g.routes)
      → count net_text f (default_step net_text b there f' (some gw) g).routes
        ≡ ensured (same_family f f') (count net_text f g.routes)
  count-default_step false there f f' gw g h h' eq found = elim (Bool-cases (same_family f f')) [
    | inl e ↦ let some_there = found refl in let c = count-same f f' g.routes e in ground arith
    | inr e ↦ rw e refl
  ]
  count-default_step true true f f' gw g h h' eq found =
      rw set_info-routes (elim (Bool-cases (same_family f f')) [
        | inl e ↦ let c = count-same f f' g.routes e in ground arith
        | inr e ↦ rw e refl
      ])
  count-default_step true false f f' gw g h h' eq found =
      rw (count-append net_text, count-default_route f f' gw h h')
        (elim (Bool-cases (same_family f f')) [
          | inl e ↦ let c = count-same f f' g.routes e in ground arith
          | inr e ↦ rw e (omega arith)
        ])

  pub default_step-found :
      (b there : Bool) (f f' : Family) (gw : Option Ip) (g : GwState)
      → f ≢ all
      → f' ≢ all
      → same_family f f' ≡ false
      → (info f (default_step net_text b there f' gw g)).default_route_found
        ≡ (info f g).default_route_found
  default_step-found false there f f' gw g h h' e = refl
  default_step-found true true v4 v6 gw g h h' e = refl
  default_step-found true false v4 v6 gw g h h' e = refl
  default_step-found true true v6 v4 gw g h h' e = refl
  default_step-found true false v6 v4 gw g h h' e = refl
  default_step-found true there v4 v4 gw g h h' e = cc
  default_step-found true there v6 v6 gw g h h' e = cc
  default_step-found true there all f' gw g h h' e = elim (h refl) [ ]
  default_step-found true there v4 all gw g h h' e = elim (h' refl) [ ]
  default_step-found true there v6 all gw g h h' e = elim (h' refl) [ ]

  -- A default route that is known stands among the routes.
  abbrev pub IsKnown : Family → GwState → Type 0
  IsKnown f g = (info f g).default_route_found ≡ true → 1 ≤ count net_text f g.routes

  pub add_gw-routes :
      (is_gw : Bool) (f : Family) (ipc : IpConfig) (g : GwState)
      → (add_gw is_gw f ipc g).routes ≡ g.routes
  add_gw-routes false f ipc g = refl
  add_gw-routes true f ipc g =
      let i = info f g in set_info-routes f g (record i { gws = i.gws ++ (gateway_net ipc ∷ []) })
