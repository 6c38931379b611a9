-- ===== src/Bridge/Routes/Loop.antt =====
-- The default routes that the loop of `calcGateways` adds.
use plugins.Prelude.{
  ℕ, ◌≡◌, ◌≢◌, inl, inr, refl, sym, ap, ◌∙◌, List, [], ◌∷◌, Bool, true, false, ◌&&◌, ◌||◌, not, ok,
  ◌>>=◌, Text, text_eq, any, ◌==◌, if◌then◌else◌, arith, Bool-cases, >>=-eq-ok,
}
use plugins.Net.{IpNet}
use plugins.Dhcp.Options.{Route}
use plugins.Links.{Family, all, v4, v6, IpConfig}
use plugins.Bridge.{
  NetConf, GwState, info, set_family, default_net, is_default_route, default_step, add_default,
  with_gateway, gateway_round, calc_gateway, no_gateways, calc_each, calc_gateways,
}
use plugins.Bridge.Gateways.{same_family, is_of, calc_gateway-ok}
use plugins.Bridge.Routes.{
  set_info-found, add_gw-found, gateway-with_gateway, count, any-count, set_info-routes, ensured,
  count-default_step, default_step-found, IsKnown, add_gw-routes,
}

module _ (net_text : IpNet → Text)
    (apart : text_eq (net_text (default_net v4)) (net_text (default_net v6)) ≡ false) where
  module _ (n : NetConf) (is_gw : n.is_gw ≡ true) (is_default : n.is_default_gw ≡ true) where
    family-IsKnown :
        (f : Family) (g : GwState)
        → f ≢ all
        → IsKnown net_text apart v4 g
        → IsKnown net_text apart v6 g
        → IsKnown net_text apart f g
    family-IsKnown v4 g nf k4 k6 = k4
    family-IsKnown v6 g nf k4 k6 = k6
    family-IsKnown all g nf k4 k6 = elim (nf refl) [ ]

    ensured-ensured : (a b : Bool) (m : ℕ) → ensured b (ensured a m) ≡ ensured (a || b) m
    ensured-ensured true true m = ground arith
    ensured-ensured true false m = ground arith
    ensured-ensured false b m = refl

    abbrev defaulted : IpConfig → Family → GwState → GwState
    defaulted ipc f g =
        default_step net_text (n.is_default_gw && not (info f g).default_route_found)
          (any (is_default_route net_text f) g.routes) f (with_gateway n.is_gw ipc).gateway g

    count-defaulted :
        (ipc : IpConfig) (f f' : Family) (g : GwState)
        → f ≢ all
        → f' ≢ all
        → IsKnown net_text apart f' g
        → count net_text f (defaulted ipc f' g).routes
          ≡ ensured (same_family f f') (count net_text f g.routes)
    count-defaulted ipc f f' g h h' known =
        let (gw, has) = gateway-with_gateway n.is_gw ipc is_gw in
        let found = (info f' g).default_route_found in
        let there = any (is_default_route net_text f') g.routes in
        ap
          (λ o.
            count net_text f
              (default_step net_text (n.is_default_gw && not found) there f' o g).routes)
          has
        ∙ count-default_step net_text apart (n.is_default_gw && not found) there f f' gw g h h'
            (any-count net_text f' g.routes)
            (λ e. elim (Bool-cases found) [
              | inl k ↦ known k
              | inr k ↦ let e' = rw (is_default, k) at e in cc
            ])

    round-count :
        (ipc : IpConfig) (f f' : Family) (g : GwState)
        → f ≢ all
        → f' ≢ all
        → IsKnown net_text apart f' g
        → count net_text f (gateway_round net_text n ipc f' g).routes
          ≡ ensured (same_family f f') (count net_text f g.routes)
    unfolding add_default
    round-count ipc f f' g h h' known =
        let i = info f' g in
        let g' = set_family f' g in
        let same : g'.routes ≡ g.routes =
          set_info-routes net_text apart f' g (record i { family = f' }) in
        let still : (info f' g').default_route_found ≡ i.default_route_found =
          set_info-found f' f' (record i { family = f' }) g refl in
        ap (λ rs. count net_text f rs)
          (add_gw-routes net_text apart n.is_gw f' (with_gateway n.is_gw ipc) (defaulted ipc f' g'))
        ∙ count-defaulted ipc f f' g' h h' (λ k. rw same (known (sym still ∙ k)))
        ∙ ap (λ rs. ensured (same_family f f') (count net_text f rs)) same

    round-found :
        (ipc : IpConfig) (f f' : Family) (g : GwState)
        → f ≢ all
        → f' ≢ all
        → same_family f f' ≡ false
        → (info f (gateway_round net_text n ipc f' g)).default_route_found
          ≡ (info f g).default_route_found
    unfolding add_default
    round-found ipc f f' g h h' e =
        let i = info f' g in
        let g' = set_family f' g in
        add_gw-found n.is_gw f f' (with_gateway n.is_gw ipc) (defaulted ipc f' g')
        ∙ default_step-found net_text apart
            (n.is_default_gw && not (info f' g').default_route_found)
            (any (is_default_route net_text f') g'.routes) f f' (with_gateway n.is_gw ipc).gateway
            g' h h' e
        ∙ set_info-found f f' (record i { family = f' }) g refl

    round-IsKnown :
        (ipc : IpConfig) (f f' : Family) (g : GwState)
        → f ≢ all
        → f' ≢ all
        → IsKnown net_text apart f g
        → IsKnown net_text apart f' g
        → IsKnown net_text apart f (gateway_round net_text n ipc f' g)
    round-IsKnown ipc f f' g h h' known known' k =
        let c = round-count ipc f f' g h h' known' in
        elim (Bool-cases (same_family f f')) [
          | inl e ↦ let c' = rw e at c in ground (arith, c')
          | inr e ↦
              let c' = rw e at c in
              let old = known (sym (round-found ipc f f' g h h' e) ∙ k) in omega (arith, c', old)
        ]

    count-calc_each :
        (ips : List IpConfig) (g : GwState) (r : List IpConfig × GwState) (f : Family)
        → f ≢ all
        → IsKnown net_text apart v4 g
        → IsKnown net_text apart v6 g
        → calc_each net_text n ips g ≡ ok r
        → count net_text f r.1.routes ≡ ensured (any (is_of f) ips) (count net_text f g.routes)
    unfolding calc_each
    count-calc_each [] g r f nf k4 k6 h = let k : ([], g) ≡ r = cc in rw (← k) refl
    count-calc_each (ipc ∷ ips) g r f nf k4 k6 h =
        let (c, next, first) =
          >>=-eq-ok
            (λ (c : IpConfig × GwState). calc_each net_text n ips c.1 >>= λ r. ok (c.0 ∷ r.0, r.1))
            (calc_gateway net_text n ipc g) h in
        let (r', eq, rest) =
          >>=-eq-ok (λ (r : List IpConfig × GwState). ok (c.0 ∷ r.0, r.1))
            (calc_each net_text n ips c.1) next in
        let (fam, e, nf', made) = calc_gateway-ok net_text n ipc g c first in
        let known = family-IsKnown fam g nf' k4 k6 in
        let later =
          count-calc_each ips c.1 r' f nf
            (rw made (round-IsKnown ipc v4 fam g (λ z. cc) nf' k4 known))
            (rw made (round-IsKnown ipc v6 fam g (λ z. cc) nf' k6 known)) rest in
        let made_r : (c.0 ∷ r'.0, r'.1) ≡ r = cc in
        let now : count net_text f c.1.routes
            ≡ ensured (same_family f fam) (count net_text f g.routes) =
          rw made (round-count ipc f fam g nf nf' known) in
        rw (sym (ap (λ z. z.1) made_r), e)
          (later
            ∙ ap (λ m. ensured (any (is_of f) ips) m) now
            ∙ ensured-ensured (same_family f fam) (any (is_of f) ips) (count net_text f g.routes))

-- On a bridge with the default gateway calcGateways leaves one default route at least, with a
-- gateway, for each family that has an address, and adds none where there was one already: it adds
-- one for a family that has an address and no such route, and no other. The texts of the default
-- networks of the families are different.
pub count-calc_gateways :
    (net_text : IpNet → Text)
    (apart : text_eq (net_text (default_net v4)) (net_text (default_net v6)) ≡ false) (n : NetConf)
    (ips : List IpConfig) (routes : List Route) (r : List IpConfig × GwState) (f : Family)
    → n.is_gw ≡ true
    → n.is_default_gw ≡ true
    → f ≢ all
    → calc_gateways net_text n ips routes ≡ ok r
    → count net_text f r.1.routes
      ≡ (if any (is_of f) ips && (count net_text f routes == 0) then 1 else count net_text f routes)
unfolding calc_gateways
count-calc_gateways net_text apart n ips routes r f is_gw is_default nf h =
    count-calc_each net_text apart n is_gw is_default ips (no_gateways routes) r f nf (λ k. cc)
      (λ k. cc) h
