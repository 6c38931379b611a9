-- ===== src/Static.antt =====
-- plugins/ipam/static/main.go: the addresses that a configuration lists.
--
-- JSON decoding, `types.LoadArgs`, `net.ParseCIDR`, `net.ParseIP` and
-- `version.GreaterThanOrEqualTo` are parameters. An address that is not parsed yet has an IP of no
-- bytes.
pub mod Chosen
pub mod Valid
pub mod Check
use plugins.Prelude.{
  ℕ, zero, suc, ◌+◌, List, [], ◌∷◌, ◌++◌, map, Bool, true, false, ◌&&◌, ◌||◌, not, Option, none,
  some, Result, ok, err, ◌>>=◌, Text, text, text_eq, trim_space, length, ◌==◌, ltb, if◌then◌else◌,
}
use plugins.Net.{Ip, IpNet, to4, slice, is_nil, equal, net_contains}
use plugins.HostLocal.Range.{canonicalize_ip}
use plugins.HostLocal.Dns.{Dns}
use plugins.Dhcp.Options.{Route}

pub data StaticError : Type 0 where
  bad_net missing_ipam bad_env bad_ip_field bad_gateway bad_ips_entry bad_address : StaticError
  invalid_address too_many_per_family missing_prev_result failed_match : StaticError

-- `Address`
pub record Address : Type 0 where
  pub address_str : Text
  pub gateway : Option Ip
  pub address : IpNet

-- `IPAMConfig`
pub record IpamConfig : Type 0 where
  pub name : Text
  pub routes : List Route
  pub addresses : List Address
  pub dns : Dns

-- `Net`
pub record NetConf : Type 0 where
  pub name : Text
  pub cni_version : Text
  pub ipam : Option IpamConfig
  pub runtime_ips : List Text
  pub args : Option (Option (List Text))

-- `IPAMEnvArgs`
pub record EnvArgs : Type 0 where
  pub ip : Text
  pub gateway : Text

-- `current.IPConfig` and `current.Result`, as far as the plugin fills them in
pub record IpConfig : Type 0 where
  pub address : IpNet
  pub gateway : Option Ip

pub record AddResult : Type 0 where
  pub ips : List IpConfig
  pub routes : List Route
  pub dns : Dns

-- `strings.Split(s, ",")`
unfoldable pub split_commas : Text → List Text
split_commas [] = [] ∷ []
split_commas (c ∷ s) =
    let rest = split_commas s in
    if c == b',' then [] ∷ rest else elim rest [ [] ↦ (c ∷ []) ∷ [] | w ∷ ws ↦ (c ∷ w) ∷ ws ]

abbrev pub with_gateway : Ip → Address → Address
with_gateway gw a = if net_contains a.address gw then record a { gateway = some gw } else a

abbrev pub args_ips : Option (Option (List Text)) → List Text
args_ips none = []
args_ips (some none) = []
args_ips (some (some ips)) = ips

-- the addresses, and how many there are of each family
pub record Counted : Type 0 where
  pub addresses : List Address
  pub num_v4 : ℕ
  pub num_v6 : ℕ

abbrev pub count_address : Address → Counted → Counted
count_address a v =
    if is_nil (to4 a.address.ip)
    then record { addresses = a ∷ v.addresses; num_v4 = v.num_v4; num_v6 = v.num_v6 + 1 }
    else record { addresses = a ∷ v.addresses; num_v4 = v.num_v4 + 1; num_v6 = v.num_v6 }

module _ (parse_cidr : Text → Option (Ip × IpNet)) where
  -- an address in CIDR notation: the IP as it is written, with the mask of its network
  unfoldable pub parse_address : StaticError → Text → Result StaticError IpNet
  parse_address e s = elim (parse_cidr s) [
    | none ↦ err e
    | some (ip, subnet) ↦ ok (record { ip = ip; mask = subnet.mask })
  ]

  -- the loop over the values of IP in CNI_ARGS
  unfoldable pub env_addresses : List Text → Result StaticError (List Address)
  env_addresses [] = ok []
  env_addresses (item ∷ items) = do
    n ← parse_address bad_ip_field (trim_space item)
    rest ← env_addresses items
    ok (record { address_str = trim_space item; gateway = none; address = n } ∷ rest)

  -- the loop over the values of GATEWAY in CNI_ARGS
  unfoldable pub env_gateways :
      (Text → Option Ip) → List Text → List Address → Result StaticError (List Address)
  env_gateways parse_ip [] addresses = ok addresses
  env_gateways parse_ip (item ∷ items) addresses = elim (parse_ip (trim_space item)) [
    | none ↦ err bad_gateway
    | some gw ↦ env_gateways parse_ip items (map (with_gateway gw) addresses)
  ]

  -- the loops over `ips` of the arguments and of the runtime configuration
  unfoldable pub parse_ips : List Text → Result StaticError (List Address)
  parse_ips [] = ok []
  parse_ips (s ∷ ips) = do
    n ← parse_address bad_ips_entry s
    rest ← parse_ips ips
    ok (record { address_str = s; gateway = none; address = n } ∷ rest)

  unfoldable pub override : List Text → List Address → Result StaticError (List Address)
  override ips addresses = if length ips == 0 then ok addresses else parse_ips ips

  -- One round of the validation: an address of the configuration is parsed, and made canonical.
  unfoldable pub validate_address : Address → Result StaticError Address
  validate_address a = do
    n ← (if length a.address.ip == 0 then parse_address bad_address a.address_str else ok a.address)
    elim (canonicalize_ip n.ip) [
      | err _ ↦ err invalid_address
      | ok ip ↦ ok (record a { address = record n { ip = ip } })
    ]

  unfoldable pub validate : List Address → Result StaticError Counted
  validate [] = ok (record { addresses = []; num_v4 = 0; num_v6 = 0 })
  validate (a ∷ rest) = do a' ← validate_address a; v ← validate rest; ok (count_address a' v)

  module _ (unmarshal : Text → Result StaticError NetConf)
      (load_args : Text → Result StaticError EnvArgs) (parse_ip : Text → Option Ip)
      (at_least : Text → Text → Bool) where
    -- CNI_ARGS
    unfoldable pub from_env : Text → List Address → Result StaticError (List Address)
    from_env args addresses = if text_eq args [] then ok addresses else do
      e ← load_args args
      more ← (if text_eq e.ip [] then ok [] else env_addresses (split_commas e.ip))
      if text_eq e.gateway []
          then ok (addresses ++ more)
          else env_gateways parse_ip (split_commas e.gateway) (addresses ++ more)

    unfoldable pub checked : Text → List Address → Result StaticError (List Address)
    checked version addresses = do
      v ← validate addresses
      if (ltb 1 v.num_v4 || ltb 1 v.num_v6) && not (at_least version (text "0.3.0"))
          then err too_many_per_family
          else ok v.addresses

    unfoldable pub load_ipam : Text → NetConf → IpamConfig → Result StaticError (IpamConfig × Text)
    load_ipam args n ipam = do
      by_env ← from_env args ipam.addresses
      by_args ← override (args_ips n.args) by_env
      by_runtime ← override n.runtime_ips by_args
      addresses ← checked n.cni_version by_runtime
      ok (record ipam { name = n.name; addresses = addresses }, n.cni_version)

    -- `LoadIPAMConfig`
    unfoldable pub load_ipam_config : Text → Text → Result StaticError (IpamConfig × Text)
    load_ipam_config bytes args = do
      n ← unmarshal bytes
      elim n.ipam [ none ↦ err missing_ipam | some ipam ↦ load_ipam args n ipam ]

abbrev pub ip_config : Address → IpConfig
ip_config a = record { address = a.address; gateway = a.gateway }

-- the result of `cmdAdd`
unfoldable pub add_result : IpamConfig → AddResult
add_result ipam = record {
  ips = map ip_config ipam.addresses;
  routes = ipam.routes;
  dns = ipam.dns;
}

-- the inner loop of `cmdCheck`
unfoldable pub check_address : Address → List IpConfig → Result StaticError (Unit {0})
check_address a [] = ok tt
check_address a (i ∷ ips) =
    let rest = check_address a ips in
    if equal a.address.ip i.address.ip
    then if is_nil a.gateway || equal (slice a.gateway) (slice i.gateway)
      then ok tt
      else err failed_match
    else rest

-- the loops of `cmdCheck`
unfoldable pub check_addresses : List Address → List IpConfig → Result StaticError (Unit {0})
check_addresses [] ips = ok tt
check_addresses (a ∷ rest) ips = do _ ← check_address a ips; check_addresses rest ips

-- `cmdCheck` after the configuration is loaded and the previous result is parsed
unfoldable pub cmd_check : IpamConfig → Option (List IpConfig) → Result StaticError (Unit {0})
cmd_check ipam prev = elim prev [
  | none ↦ err missing_prev_result
  | some ips ↦ check_addresses ipam.addresses ips
]
