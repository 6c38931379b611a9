-- ===== src/Dhcp/Options/Routes.antt =====
-- The classless routes of plugins/ipam/dhcp/options.go: an encoder of the format, as an independent
-- description, and what reading gives back.
use plugins.Prelude.{
  ℕ, zero, suc, ◌+◌, ◌≤◌, ◌<◌, ◌-◌, ◌/◌, ◌%◌, ◌^◌, ◌&&◌, Bool, Bool-cases, inl, inr, ◌==◌, true,
  false, text_eq, text_eq-eq, ◌≡◌, refl, ap, sym, ◌∙◌, List, [], ◌∷◌, ◌++◌, map, some, length, take,
  drop, All, arith, length-append,
}
use mathlib.Core.List.{append_assoc}
use mathlib.Core.Path.{subst}
use plugins.Net.{Ip, cidr_mask}
use plugins.Dhcp.Options.{
  Options, Route, option, octets, padded, cidr_route, cidr_routes, parse_cidr_routes, classless,
}

-- a route to a network, with the bytes of the network that hold its prefix
pub record Entry : Type 0 where
  pub width : ℕ
  pub network : List ℕ
  pub gateway : Ip

-- the format of RFC 3442
abbrev pub encode : List Entry → List ℕ
encode [] = []
encode (e ∷ es) = e.width ∷ (e.network ++ (e.gateway ++ encode es))

pub record IsEntry (e : Entry) : Type 0 where
  pub width_bound : e.width ≤ 32
  pub network_length : length e.network ≡ (e.width + 7) / 8
  pub gateway_length : length e.gateway ≡ 4

-- the mask of a width: the 32 bits of a number, of which as many are ones, and they come first
abbrev mask_number : ℕ → ℕ
mask_number width = 2 ^ 32 - 2 ^ (32 - width)

abbrev pub mask_of : ℕ → List ℕ
mask_of width =
    mask_number width / 2 ^ 24
    ∷ mask_number width / 2 ^ 16 % 256
    ∷ mask_number width / 2 ^ 8 % 256
    ∷ mask_number width % 256
    ∷ []

abbrev zeros : ℕ → List ℕ
zeros zero = []
zeros (suc n) = 0 ∷ zeros n

-- The destination is the network's bytes and zeros after them.
abbrev pub route_of : Entry → Route
route_of e = record {
  dst = record { ip = e.network ++ zeros (4 - length e.network); mask = mask_of e.width };
  gw = some e.gateway;
}

octets_lem : (width : ℕ) → octets width ≡ (width + 7) / 8
unfolding octets
octets_lem width = ground arith

padded-zeros : (sn : List ℕ) → length sn ≤ 4 → padded sn ≡ sn ++ zeros (4 - length sn)
padded-zeros [] h = refl
padded-zeros (a ∷ []) h = refl
padded-zeros (a ∷ b ∷ []) h = refl
padded-zeros (a ∷ b ∷ c ∷ []) h = refl
padded-zeros (a ∷ b ∷ c ∷ d ∷ []) h = refl
padded-zeros (a ∷ b ∷ c ∷ d ∷ e ∷ sn) h = absurd (omega (arith, h))

-- whether a width and all smaller ones have the masks that the library makes
abbrev masks_agree : ℕ → Bool
masks_agree zero = text_eq (cidr_mask 4 0) (mask_of 0)
masks_agree (suc n) = text_eq (cidr_mask 4 (suc n)) (mask_of (suc n)) && masks_agree n

both_true : (a b : Bool) → (a && b) ≡ true → (a ≡ true) × (b ≡ true)
both_true true b h = (refl, h)
both_true false b h = cc

masks_agree-at :
    (n width : ℕ)
    → masks_agree n ≡ true
    → width ≤ n
    → text_eq (cidr_mask 4 width) (mask_of width) ≡ true
masks_agree-at zero zero h k = h
masks_agree-at zero (suc width) h k = absurd (omega (arith, k))
masks_agree-at (suc n) width h k =
    let (here, below) =
      both_true (text_eq (cidr_mask 4 (suc n)) (mask_of (suc n))) (masks_agree n) h in
    elim (Bool-cases (width == suc n)) [
      | inl e ↦
          let same : suc n ≡ width = ground arith in
          subst (λ w. text_eq (cidr_mask 4 w) (mask_of w) ≡ true) same here
      | inr e ↦ masks_agree-at n width below (ground arith)
    ]

cidr_mask-mask_of : (width : ℕ) → width ≤ 32 → cidr_mask 4 width ≡ mask_of width
unfolding cidr_mask
cidr_mask-mask_of width h = text_eq-eq _ _ (masks_agree-at 32 width refl h)

cidr_route-route_of : (e : Entry) → IsEntry e → cidr_route e.width e.network e.gateway ≡ route_of e
cidr_route-route_of e v =
    rw
      (
        padded-zeros e.network (omega (arith, v.network_length, v.width_bound)),
        cidr_mask-mask_of e.width v.width_bound,
      )
      refl

take-append : (n : ℕ) (xs ys : List ℕ) → length xs ≡ n → take n (xs ++ ys) ≡ xs
take-append zero [] ys h = refl
take-append zero (x ∷ xs) ys h = ground arith
take-append (suc n) [] ys h = ground arith
take-append (suc n) (x ∷ xs) ys h = ap (λ r. x ∷ r) (take-append n xs ys (omega (arith, h)))

drop-append : (n : ℕ) (xs ys : List ℕ) → length xs ≡ n → drop n (xs ++ ys) ≡ ys
drop-append zero [] ys h = refl
drop-append zero (x ∷ xs) ys h = ground arith
drop-append (suc n) [] ys h = ground arith
drop-append (suc n) (x ∷ xs) ys h = drop-append n xs ys (omega (arith, h))

-- One round reads one entry.
cidr_routes-entry :
    (fuel : ℕ) (e : Entry) (more : List ℕ) (routes : List Route)
    → IsEntry e
    → cidr_routes fuel more ≡ some routes
    → cidr_routes (suc fuel) (e.width ∷ (e.network ++ (e.gateway ++ more)))
      ≡ some (route_of e ∷ routes)
unfolding cidr_routes
cidr_routes-entry fuel e more routes v h =
    let size : length e.network ≡ octets e.width = v.network_length ∙ sym (octets_lem e.width) in
    let same = cidr_route-route_of e v in
    let n : length (e.network ++ (e.gateway ++ more)) ≡ octets e.width + 4 + length more = omega (
      arith,
      length-append e.network (e.gateway ++ more),
      length-append e.gateway more,
      size,
      v.gateway_length,
    ) in
    let network = take-append (octets e.width) e.network (e.gateway ++ more) size in
    let skipped = drop-append (octets e.width) e.network (e.gateway ++ more) size in
    let gateway = take-append 4 e.gateway more v.gateway_length in
    let rest = drop-append 4 e.gateway more v.gateway_length in
    let wide = v.width_bound in ground arith

-- Fuel for each byte is enough, and less than 5 bytes that follow are passed over.
cidr_routes-encode :
    (fuel : ℕ) (es : List Entry) (rest : List ℕ)
    → All IsEntry es
    → length rest < 5
    → length (encode es) + length rest ≤ fuel
    → cidr_routes fuel (encode es ++ rest) ≡ some (map route_of es)
unfolding cidr_routes
cidr_routes-encode zero [] rest h k l = refl
cidr_routes-encode zero (e ∷ es) rest h k l = absurd (omega (arith, l))
cidr_routes-encode (suc fuel) [] [] h k l = refl
cidr_routes-encode (suc fuel) [] (x ∷ xs) h k l = ground arith
cidr_routes-encode (suc fuel) (e ∷ es) rest h k l =
    let fuel_left : length (encode es) + length rest ≤ fuel = omega (
      arith,
      l,
      length-append e.network (e.gateway ++ encode es),
      length-append e.gateway (encode es),
    ) in
    ap (λ (opt : List ℕ). cidr_routes (suc fuel) (e.width ∷ opt))
      (append_assoc e.network (e.gateway ++ encode es) rest
        ∙ ap (λ (opt : List ℕ). e.network ++ opt) (append_assoc e.gateway (encode es) rest))
    ∙ cidr_routes-entry fuel e (encode es ++ rest) (map route_of es) h.0
        (cidr_routes-encode fuel es rest h.1 k fuel_left)

-- Reading the encoding of routes, by the format of RFC 3442, gives the routes back, in order, also
-- where fewer than 5 bytes follow: each with its network, filled up with zeros, the mask of its
-- width, and its gateway.
pub parse_cidr_routes-encode :
    (opts : Options) (es : List Entry) (rest : List ℕ)
    → option opts classless ≡ some (encode es ++ rest)
    → All IsEntry es
    → length rest < 5
    → parse_cidr_routes opts ≡ map route_of es
unfolding parse_cidr_routes
parse_cidr_routes-encode opts es rest o h k =
    let read =
      cidr_routes-encode (length (encode es ++ rest)) es rest h k
        (omega (arith, length-append (encode es) rest)) in
    rw (parse_cidr_routes, o, read) refl
