-- ===== src/Static/Chosen.antt =====
-- Which of its sources `LoadIPAMConfig` of plugins/ipam/static takes the addresses from.
use plugins.Prelude.{
  ◌≡◌, refl, ap, sym, ◌∙◌, List, [], ◌∷◌, ◌++◌, map, Bool, false, Option, none, some, Result, ok,
  err, >>=-eq-ok, Result-cases, Option-cases, Bool-cases, inl, inr, Text, text_eq, trim_space,
  length, ◌==◌, if◌then◌else◌, arith,
}
use mathlib.Core.List.{map-append, append-nil}
use plugins.Net.{Ip, IpMask, IpNet, net_contains}
use plugins.HostLocal.Types.{Error}
use plugins.HostLocal.Range.{canonicalize_ip}
use plugins.Static.{
  Address, IpamConfig, IpConfig, AddResult, ip_config, add_result, NetConf, EnvArgs, StaticError,
  Counted, count_address, with_gateway, args_ips, split_commas, parse_address, env_addresses,
  env_gateways, parse_ips, override, validate_address, validate, from_env, checked, load_ipam,
  load_ipam_config, bad_address, bad_ip_field, bad_ips_entry,
}

-- the address and the mask of a text in CIDR notation
abbrev pub read : (Text → Option (Ip × IpNet)) → Text → Option IpNet
read parse_cidr s = elim (parse_cidr s) [
  | none ↦ none
  | some (ip, subnet) ↦ some (record { ip = ip; mask = subnet.mask })
]

-- the address and the mask of an entry: those that it has, or else those of its text
abbrev pub net_of : (Text → Option (Ip × IpNet)) → Address → Option IpNet
net_of parse_cidr a =
    if length a.address.ip == 0 then read parse_cidr a.address_str else some a.address

abbrev pub nets : (Text → Option (Ip × IpNet)) → List Address → List (Option IpNet)
nets parse_cidr = map (net_of parse_cidr)

-- an address in standard form, with its mask
abbrev with_ip : IpMask → Result Error Ip → Option IpNet
with_ip mask (err _) = none
with_ip mask (ok ip) = some (record { ip = ip; mask = mask })

abbrev pub canonical : Option IpNet → Option IpNet
canonical none = none
canonical (some n) = with_ip n.mask (canonicalize_ip n.ip)

-- the addresses of what ADD returns
abbrev pub result_nets : AddResult → List (Option IpNet)
result_nets r = map (λ (i : IpConfig). some i.address) r.ips

-- the first of two lists that is not empty
abbrev pub first_given : {A : Type 0} → List A → List A → List A
first_given [] xs = xs
first_given (y ∷ ys) xs = y ∷ ys

abbrev env_items_of : Result StaticError EnvArgs → List Text
env_items_of (err e) = []
env_items_of (ok e) = if text_eq e.ip [] then [] else map trim_space (split_commas e.ip)

-- the addresses of CNI_ARGS
abbrev pub env_items : (Text → Result StaticError EnvArgs) → Text → List Text
env_items load_args args = if text_eq args [] then [] else env_items_of (load_args args)

module _ (parse_cidr : Text → Option (Ip × IpNet)) where
  nets-with_gateway :
      (gw : Ip) (addrs : List Address)
      → nets parse_cidr (map (with_gateway gw) addrs) ≡ nets parse_cidr addrs
  nets-with_gateway gw [] = refl
  nets-with_gateway gw (a ∷ addrs) = elim (Bool-cases (net_contains a.address gw)) [
    | inl e ↦ rw e (ap (λ ns. net_of parse_cidr a ∷ ns) (nets-with_gateway gw addrs))
    | inr e ↦ rw e (ap (λ ns. net_of parse_cidr a ∷ ns) (nets-with_gateway gw addrs))
  ]

  -- An address that is read is the one of its text, also where it would be read again.
  parse_address-read :
      (x : StaticError) (s : Text) (n : IpNet)
      → parse_address parse_cidr x s ≡ ok n
      → read parse_cidr s ≡ some n
  unfolding parse_address
  parse_address-read x s n = go (parse_cidr s)
    where
      go :
          (o : Option (Ip × IpNet))
          → elim o as (λ _. Result StaticError IpNet) [
            | none ↦ err x
            | some (ip, subnet) ↦ ok (record { ip = ip; mask = subnet.mask })
          ]
            ≡ ok n
          → elim o as (λ _. Option IpNet) [
            | none ↦ none
            | some (ip, subnet) ↦ some (record { ip = ip; mask = subnet.mask })
          ]
            ≡ some n
      go none h = cc
      go (some (ip, subnet)) h = cc

  net_of-read :
      (s : Text) (n : IpNet)
      → read parse_cidr s ≡ some n
      → net_of parse_cidr (record { address_str = s; gateway = none; address = n })
        ≡ read parse_cidr s
  net_of-read s n h = elim (Bool-cases (length n.ip == 0)) [
    | inl e ↦ rw e refl
    | inr e ↦ rw e (sym h)
  ]

  validate_address-net :
      (a a' : Address)
      → validate_address parse_cidr a ≡ ok a'
      → some a'.address ≡ canonical (net_of parse_cidr a)
  unfolding validate_address
  validate_address-net a a' h =
      let (n, h', e) =
        >>=-eq-ok _
          (if length a.address.ip == 0
            then parse_address parse_cidr bad_address a.address_str
            else ok a.address)
          h in
      let read_n : net_of parse_cidr a ≡ some n = elim (Bool-cases (length a.address.ip == 0)) [
        | inl z ↦ rw z (parse_address-read bad_address a.address_str n (rw z at e))
        | inr z ↦ rw z (let e' : ok a.address ≡ ok n = rw z at e in cc)
      ] in
      elim (Result-cases (canonicalize_ip n.ip)) [
        | inl (ip, k) ↦ let h2 = rw k at h' in rw (read_n, k) cc
        | inr (x, k) ↦ let h2 = rw k at h' in absurd cc
      ]

  shown-count_address :
      (a : Address) (v : Counted)
      → map (λ (z : Address). some z.address) (count_address a v).addresses
        ≡ some a.address ∷ map (λ (z : Address). some z.address) v.addresses
  shown-count_address a v = ground arith

  nets-validate :
      (addrs : List Address) (v : Counted)
      → validate parse_cidr addrs ≡ ok v
      → map (λ (z : Address). some z.address) v.addresses ≡ map canonical (nets parse_cidr addrs)
  unfolding validate
  nets-validate [] v h =
      let e : v ≡ record { addresses = []; num_v4 = 0; num_v6 = 0 } = cc in rw e refl
  nets-validate (a ∷ addrs) v h =
      let (a', h', e) = >>=-eq-ok _ (validate_address parse_cidr a) h in
      let (v', h'', e') = >>=-eq-ok _ (validate parse_cidr addrs) h' in
      let same : v ≡ count_address a' v' = cc in
      rw same (
        shown-count_address a' v'
        ∙ ap (λ o. o ∷ map (λ (z : Address). some z.address) v'.addresses)
            (validate_address-net a a' e)
        ∙ ap (λ os. canonical (net_of parse_cidr a) ∷ os) (nets-validate addrs v' e'))

  nets-parse_ips :
      (ips : List Text) (addrs : List Address)
      → parse_ips parse_cidr ips ≡ ok addrs
      → nets parse_cidr addrs ≡ map (read parse_cidr) ips
  unfolding parse_ips
  nets-parse_ips [] addrs h = let e : addrs ≡ [] = cc in rw e refl
  nets-parse_ips (s ∷ ips) addrs h =
      let (n, h', e) = >>=-eq-ok _ (parse_address parse_cidr bad_ips_entry s) h in
      let (rest, h'', e') = >>=-eq-ok _ (parse_ips parse_cidr ips) h' in
      let same : addrs ≡ record { address_str = s; gateway = none; address = n } ∷ rest = cc in
      rw same (
        ap (λ o. o ∷ nets parse_cidr rest)
          (net_of-read s n (parse_address-read bad_ips_entry s n e))
        ∙ ap (λ os. read parse_cidr s ∷ os) (nets-parse_ips ips rest e'))

  nets-env_addresses :
      (items : List Text) (addrs : List Address)
      → env_addresses parse_cidr items ≡ ok addrs
      → nets parse_cidr addrs ≡ map (read parse_cidr) (map trim_space items)
  unfolding env_addresses
  nets-env_addresses [] addrs h = let e : addrs ≡ [] = cc in rw e refl
  nets-env_addresses (s ∷ items) addrs h =
      let (n, h', e) = >>=-eq-ok _ (parse_address parse_cidr bad_ip_field (trim_space s)) h in
      let (rest, h'', e') = >>=-eq-ok _ (env_addresses parse_cidr items) h' in
      let same : addrs ≡ record { address_str = trim_space s; gateway = none; address = n } ∷ rest =
        cc in
      rw same (
        ap (λ o. o ∷ nets parse_cidr rest)
          (net_of-read (trim_space s) n (parse_address-read bad_ip_field (trim_space s) n e))
        ∙ ap (λ os. read parse_cidr (trim_space s) ∷ os) (nets-env_addresses items rest e'))

  nets-env_gateways :
      (parse_ip : Text → Option Ip) (items : List Text) (addrs addrs' : List Address)
      → env_gateways parse_cidr parse_ip items addrs ≡ ok addrs'
      → nets parse_cidr addrs' ≡ nets parse_cidr addrs
  unfolding env_gateways
  nets-env_gateways parse_ip [] addrs addrs' h = let e : addrs' ≡ addrs = cc in rw e refl
  nets-env_gateways parse_ip (s ∷ items) addrs addrs' h =
      elim (Option-cases (parse_ip (trim_space s))) [
        | inl e ↦ let h' = rw (env_gateways, e) at h in absurd cc
        | inr (gw, e) ↦
            nets-env_gateways parse_ip items (map (with_gateway gw) addrs) addrs'
              (rw (env_gateways, e) at h)
            ∙ nets-with_gateway gw addrs
      ]

  nets-override :
      (ips : List Text) (addrs addrs' : List Address)
      → override parse_cidr ips addrs ≡ ok addrs'
      → nets parse_cidr addrs' ≡ first_given (map (read parse_cidr) ips) (nets parse_cidr addrs)
  unfolding override
  nets-override [] addrs addrs' h = let e : addrs' ≡ addrs = cc in rw e refl
  nets-override (s ∷ ips) addrs addrs' h =
      let e : (length (s ∷ ips) == 0) ≡ false = ground arith in
      nets-parse_ips (s ∷ ips) addrs' (rw (override, e) at h)

  module _ (unmarshal : Text → Result StaticError NetConf)
      (load_args : Text → Result StaticError EnvArgs) (parse_ip : Text → Option Ip)
      (at_least : Text → Text → Bool) where
    nets-more :
        (e : EnvArgs) (more : List Address)
        → (if text_eq e.ip [] then ok [] else env_addresses parse_cidr (split_commas e.ip))
          ≡ ok more
        → nets parse_cidr more ≡ map (read parse_cidr) (env_items_of (ok e))
    nets-more e more h = elim (Bool-cases (text_eq e.ip [])) [
      | inl k ↦ let same : more ≡ [] = ground arith in rw (k, same) refl
      | inr k ↦ rw k (nets-env_addresses (split_commas e.ip) more (rw k at h))
    ]

    nets-gateways :
        (e : EnvArgs) (addrs addrs' : List Address)
        → (if text_eq e.gateway []
            then ok addrs
            else env_gateways parse_cidr parse_ip (split_commas e.gateway) addrs)
          ≡ ok addrs'
        → nets parse_cidr addrs' ≡ nets parse_cidr addrs
    nets-gateways e addrs addrs' h = elim (Bool-cases (text_eq e.gateway [])) [
      | inl k ↦ let same : addrs' ≡ addrs = ground arith in rw same refl
      | inr k ↦ nets-env_gateways parse_ip (split_commas e.gateway) addrs addrs' (rw k at h)
    ]

    nets-from_env :
        (args : Text) (addrs addrs' : List Address)
        → from_env parse_cidr unmarshal load_args parse_ip at_least args addrs ≡ ok addrs'
        → nets parse_cidr addrs'
          ≡ nets parse_cidr addrs ++ map (read parse_cidr) (env_items load_args args)
    unfolding from_env
    nets-from_env args addrs addrs' h = elim (Bool-cases (text_eq args [])) [
      | inl k ↦
          let same : addrs' ≡ addrs = ground arith in
          rw (k, same) (sym (append-nil (nets parse_cidr addrs)))
      | inr k ↦
          let (e, h1, e1) = >>=-eq-ok _ (load_args args) (rw (from_env, k) at h) in
          let (more, h2, e2) =
            >>=-eq-ok _
              (if text_eq e.ip [] then ok [] else env_addresses parse_cidr (split_commas e.ip))
              h1 in
          rw (k, e1)
            (nets-gateways e (addrs ++ more) addrs' h2
              ∙ map-append (net_of parse_cidr) addrs more
              ∙ ap (λ ns. nets parse_cidr addrs ++ ns) (nets-more e more e2))
    ]

    nets-checked :
        (version : Text) (addrs addrs' : List Address)
        → checked parse_cidr unmarshal load_args parse_ip at_least version addrs ≡ ok addrs'
        → map (λ (z : Address). some z.address) addrs' ≡ map canonical (nets parse_cidr addrs)
    unfolding checked
    nets-checked version addrs addrs' h =
        let (v, h1, e1) = >>=-eq-ok _ (validate parse_cidr addrs) h in
        let same : addrs' ≡ v.addresses = ground arith in rw same (nets-validate addrs v e1)

    result_nets-ip_config :
        (addrs : List Address)
        → map (λ (i : IpConfig). some i.address) (map ip_config addrs)
          ≡ map (λ (z : Address). some z.address) addrs
    result_nets-ip_config [] = refl
    result_nets-ip_config (a ∷ addrs) = ap (λ os. some a.address ∷ os) (result_nets-ip_config addrs)

    -- Where the configuration is accepted, the addresses of ADD's result, with their masks, are
    -- those that the runtime configuration lists; if it lists none, those of the arguments; if there
    -- are none, those of the plugin's section and then those of CNI_ARGS: each in order and in
    -- standard form, and none else. What is listed as a text is the IP as it is written there, with
    -- the mask of its network.
    pub nets-load_ipam_config :
        (bytes args version : Text) (n : NetConf) (ipam conf : IpamConfig)
        → unmarshal bytes ≡ ok n
        → n.ipam ≡ some ipam
        → load_ipam_config parse_cidr unmarshal load_args parse_ip at_least bytes args
          ≡ ok (conf, version)
        → result_nets (add_result conf)
          ≡ map canonical (
              first_given (map (read parse_cidr) n.runtime_ips) (
                first_given (map (read parse_cidr) (args_ips n.args)) (
                  nets parse_cidr ipam.addresses
                  ++ map (read parse_cidr) (env_items load_args args))))
    unfolding load_ipam_config load_ipam add_result
    nets-load_ipam_config bytes args version n ipam conf m i h =
        let h0 = rw (load_ipam_config, m, i) at h in
        let (a1, h1, e1) =
          >>=-eq-ok _
            (from_env parse_cidr unmarshal load_args parse_ip at_least args ipam.addresses) h0 in
        let (a2, h2, e2) = >>=-eq-ok _ (override parse_cidr (args_ips n.args) a1) h1 in
        let (a3, h3, e3) = >>=-eq-ok _ (override parse_cidr n.runtime_ips a2) h2 in
        let (a4, h4, e4) =
          >>=-eq-ok _ (checked parse_cidr unmarshal load_args parse_ip at_least n.cni_version a3)
            h3 in
        let same : conf.addresses ≡ a4 = cc in
        result_nets-ip_config conf.addresses
        ∙ rw same (
            nets-checked n.cni_version a3 a4 e4
            ∙ ap (map canonical) (
                nets-override n.runtime_ips a2 a3 e3
                ∙ ap (first_given (map (read parse_cidr) n.runtime_ips)) (
                    nets-override (args_ips n.args) a1 a2 e2
                    ∙ ap (first_given (map (read parse_cidr) (args_ips n.args)))
                        (nets-from_env args ipam.addresses a1 e1))))
