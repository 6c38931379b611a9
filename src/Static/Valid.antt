-- ===== src/Static/Valid.antt =====
-- What an accepted configuration of plugins/ipam/static is like.
use plugins.Prelude.{
  ℕ, ◌+◌, ◌≤◌, ◌≡◌, refl, ap, List, [], ◌∷◌, Bool, true, Option, ◌⊎◌, Result, ok, >>=-eq-ok,
  Result-cases, Option-cases, Bool-cases, inl, inr, Text, text, length, ◌==◌, if◌then◌else◌, arith,
  All,
}
use plugins.Net.{Ip, IpNet, to4, is_nil}
use plugins.Net.Facts.{IsCanonical}
use plugins.HostLocal.Range.{canonicalize_ip}
use plugins.HostLocal.Range.Canonical.{canonicalize_ip-IsCanonical}
use plugins.Static.{
  Address, IpamConfig, NetConf, EnvArgs, StaticError, Counted, count_address, parse_address,
  override, validate_address, validate, from_env, checked, args_ips, load_ipam, load_ipam_config,
  bad_address,
}

abbrev IsReady : Address → Type 0
IsReady a = IsCanonical a.address.ip

-- how many addresses are no IPv4 addresses, and how many are
abbrev pub v6_addresses : List Address → ℕ
v6_addresses [] = 0
v6_addresses (a ∷ addrs) =
    if is_nil (to4 a.address.ip) then v6_addresses addrs + 1 else v6_addresses addrs

abbrev pub v4_addresses : List Address → ℕ
v4_addresses [] = 0
v4_addresses (a ∷ addrs) =
    if is_nil (to4 a.address.ip) then v4_addresses addrs else v4_addresses addrs + 1

pub record IsValid (many : Bool) (addrs : List Address) : Type 0 where
  pub canonical : All IsReady addrs
  pub families : (many ≡ true) ⊎ ((v4_addresses addrs ≤ 1) × (v6_addresses addrs ≤ 1))

record IsCounted (v : Counted) : Type 0 where
  ready : All IsReady v.addresses
  v4 : v.num_v4 ≡ v4_addresses v.addresses
  v6 : v.num_v6 ≡ v6_addresses v.addresses

count_address-IsCounted :
    (a : Address) (v : Counted) → IsReady a → IsCounted v → IsCounted (count_address a v)
count_address-IsCounted a v r k = elim (Bool-cases (is_nil (to4 a.address.ip))) [
  | inl e ↦ rw e (record { ready = (r, k.ready); v4 = rw e k.v4; v6 = rw e (ap (λ m. m + 1) k.v6) })
  | inr e ↦ rw e (record { ready = (r, k.ready); v4 = rw e (ap (λ m. m + 1) k.v4); v6 = rw e k.v6 })
]

module _ (parse_cidr : Text → Option (Ip × IpNet)) where
  validate_address-IsReady : (a a' : Address) → validate_address parse_cidr a ≡ ok a' → IsReady a'
  unfolding validate_address
  validate_address-IsReady a a' h =
      let (n, h', e) =
        >>=-eq-ok _
          (if length a.address.ip == 0
            then parse_address parse_cidr bad_address a.address_str
            else ok a.address)
          h in
      elim (Result-cases (canonicalize_ip n.ip)) [
        | inl (ip, k) ↦
            let h2 = rw k at h' in
            let same : a'.address.ip ≡ ip = cc in rw same (canonicalize_ip-IsCanonical n.ip ip k)
        | inr (x, k) ↦ let h2 = rw k at h' in absurd cc
      ]

  validate-IsCounted :
      (addrs : List Address) (v : Counted) → validate parse_cidr addrs ≡ ok v → IsCounted v
  unfolding validate
  validate-IsCounted [] v h =
      let e : v ≡ record { addresses = []; num_v4 = 0; num_v6 = 0 } = cc in
      rw e (record { ready = tt; v4 = refl; v6 = refl })
  validate-IsCounted (a ∷ addrs) v h =
      let (a', h', e) = >>=-eq-ok _ (validate_address parse_cidr a) h in
      let (v', h'', e') = >>=-eq-ok _ (validate parse_cidr addrs) h' in
      let same : v ≡ count_address a' v' = cc in
      rw same (
        count_address-IsCounted a' v' (validate_address-IsReady a a' e)
          (validate-IsCounted addrs v' e'))

  module _ (unmarshal : Text → Result StaticError NetConf)
      (load_args : Text → Result StaticError EnvArgs) (parse_ip : Text → Option Ip)
      (at_least : Text → Text → Bool) where
    checked-IsValid :
        (version : Text) (addrs addrs' : List Address)
        → checked parse_cidr unmarshal load_args parse_ip at_least version addrs ≡ ok addrs'
        → IsValid (at_least version (text "0.3.0")) addrs'
    unfolding checked
    checked-IsValid version addrs addrs' h =
        let (v, h1, e1) = >>=-eq-ok _ (validate parse_cidr addrs) h in
        let k = validate-IsCounted addrs v e1 in
        let same : v.addresses ≡ addrs' = ground arith in
        let families : (at_least version (text "0.3.0") ≡ true)
            ⊎ ((v.num_v4 ≤ 1) × (v.num_v6 ≤ 1)) =
          ground arith in
        rw (← same) (record { canonical = k.ready; families = rw (k.v4, k.v6) at families })

    checked_last :
        (n : NetConf) (ipam conf : IpamConfig) (version : Text) (addrs addrs' : List Address)
        → checked parse_cidr unmarshal load_args parse_ip at_least n.cni_version addrs ≡ ok addrs'
        → ◌≡◌ {A = Result StaticError (IpamConfig × Text)}
            (ok (record ipam { name = n.name; addresses = addrs' }, n.cni_version))
            (ok (conf, version))
        → IsValid (at_least version (text "0.3.0")) conf.addresses
    checked_last n ipam conf version addrs addrs' e h =
        let same : addrs' ≡ conf.addresses = cc in
        let same_version : n.cni_version ≡ version = cc in
        let k = checked-IsValid n.cni_version addrs addrs' e in rw (same, same_version) at k

    load_ipam-IsReady :
        (args version : Text) (n : NetConf) (ipam conf : IpamConfig)
        → load_ipam parse_cidr unmarshal load_args parse_ip at_least args n ipam
          ≡ ok (conf, version)
        → IsValid (at_least version (text "0.3.0")) conf.addresses
    unfolding load_ipam
    load_ipam-IsReady args version n ipam conf h =
        let (a1, h1, e1) =
          >>=-eq-ok _
            (from_env parse_cidr unmarshal load_args parse_ip at_least args ipam.addresses) h in
        let (a2, h2, e2) = >>=-eq-ok _ (override parse_cidr (args_ips n.args) a1) h1 in
        let (a3, h3, e3) = >>=-eq-ok _ (override parse_cidr n.runtime_ips a2) h2 in
        let (a4, h4, e4) =
          >>=-eq-ok _ (checked parse_cidr unmarshal load_args parse_ip at_least n.cni_version a3)
            h3 in
        checked_last n ipam conf version a3 a4 e4 h4

    -- An accepted configuration has only addresses in canonical form, of 4 or 16 bytes, and at most
    -- one of each family where the version is below 0.3.0.
    pub load_ipam_config-IsReady :
        (bytes args version : Text) (conf : IpamConfig)
        → load_ipam_config parse_cidr unmarshal load_args parse_ip at_least bytes args
          ≡ ok (conf, version)
        → IsValid (at_least version (text "0.3.0")) conf.addresses
    unfolding load_ipam_config
    load_ipam_config-IsReady bytes args version conf h =
        let (n, h0, e0) = >>=-eq-ok _ (unmarshal bytes) h in
        elim (Option-cases n.ipam) [
          | inl e ↦ let h1 = rw e at h0 in absurd cc
          | inr (ipam, e) ↦ load_ipam-IsReady args version n ipam conf (rw e at h0)
        ]
