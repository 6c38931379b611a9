-- ===== src/HostLocal/Config.antt =====
-- host-local/backend/allocator/config.go and the address type of pkg/ip/ip.go.
--
-- JSON decoding, `types.LoadArgs` and `version.GreaterThanOrEqualTo` are parameters.
pub mod Valid
use plugins.Prelude.{
  ℕ, ◌+◌, List, [], ◌∷◌, ◌++◌, map, Bool, false, ◌&&◌, ◌||◌, not, Option, none, some, Result, ok,
  err, ◌>>=◌, Text, text, text_eq, length, any, ◌==◌, ltb, if◌then◌else◌,
}
use plugins.Net.{Ip, IpNet, to4, to16, slice, is_nil}
use plugins.HostLocal.Types.{
  Error, Range, RangeSet, index_panic, missing_ipam, bad_ip, no_ranges, too_many_per_family,
  range_sets_overlap, invalid_range_set,
}
use plugins.HostLocal.Range
use plugins.HostLocal.RangeSet

-- `IP.ToIP` of pkg/ip
unfoldable pub to_ip : IpNet → Option Ip
to_ip i = elim (to4 i.ip) [
  | some a ↦ some a
  | none ↦ elim (to16 i.ip) [ some a ↦ some a | none ↦ none ]
]

-- `IPAMConfig`; the routes are passed through and are not modelled.
pub record IpamConfig : Type 0 where
  pub range : Option Range
  pub name : Text
  pub data_dir : Text
  pub resolv_conf : Text
  pub ranges : List RangeSet
  pub ip_args : List Ip

-- `Net`
pub record NetConf : Type 0 where
  pub name : Text
  pub cni_version : Text
  pub ipam : Option IpamConfig
  pub runtime_ranges : List RangeSet
  pub runtime_ips : List IpNet
  pub args : Option (Option (List IpNet))

unfoldable pub canonicalize_args : List Ip → Result Error (List Ip)
canonicalize_args [] = ok []
canonicalize_args (a ∷ rest) = elim (Range.canonicalize_ip a) [
  | err _ ↦ err bad_ip
  | ok c ↦ do cs ← canonicalize_args rest; ok (c ∷ cs)
]

-- The numbers of the sets of each family, counted while they are put in canonical form.
pub record Validated : Type 0 where
  pub ranges : List RangeSet
  pub num_v4 : ℕ
  pub num_v6 : ℕ

abbrev pub add_set : RangeSet → Validated → Result Error Validated
add_set [] v = err index_panic
add_set (r ∷ rs) v =
    if is_nil (to4 (slice r.range_start))
    then ok (record { ranges = (r ∷ rs) ∷ v.ranges; num_v4 = v.num_v4; num_v6 = v.num_v6 + 1 })
    else ok (record { ranges = (r ∷ rs) ∷ v.ranges; num_v4 = v.num_v4 + 1; num_v6 = v.num_v6 })

unfoldable pub validate : List RangeSet → Result Error Validated
validate [] = ok (record { ranges = []; num_v4 = 0; num_v6 = 0 })
validate (p ∷ ps) = elim (RangeSet.canonicalize p) [
  | err _ ↦ err invalid_range_set
  | ok p' ↦ do v ← validate ps; add_set p' v
]

-- Whether two sets, one before the other, overlap.
unfoldable pub sets_overlap : List RangeSet → Bool
sets_overlap [] = false
sets_overlap (p1 ∷ rest) = any (λ p2. RangeSet.overlaps p1 p2) rest || sets_overlap rest

-- The ranges of the configuration, of the old style and of the runtime, in the order of the source.
-- A subnet that the configuration does not give has no address.
unfoldable pub all_ranges : NetConf → IpamConfig → List RangeSet
all_ranges n ipam =
    let single : List RangeSet = elim ipam.range [
      | none ↦ []
      | some r ↦ if length r.subnet.ip == 0 then [] else (r ∷ []) ∷ []
    ] in
    n.runtime_ranges ++ (single ++ ipam.ranges)

abbrev pub to_ips : List IpNet → List Ip
to_ips = map (λ i. slice (to_ip i))

abbrev pub args_ips : Option (Option (List IpNet)) → List Ip
args_ips none = []
args_ips (some none) = []
args_ips (some (some ips)) = to_ips ips

module _ (unmarshal : Text → Result Error NetConf) (load_args : Text → Result Error IpNet)
    (at_least : Text → Text → Bool) where
  -- The requested addresses of the environment replace those of the configuration.
  unfoldable pub env_ips : Text → List Ip → Result Error (List Ip)
  env_ips args ips =
      if text_eq args []
      then ok ips
      else do e ← load_args args; elim (to_ip e) [ some a ↦ ok (a ∷ []) | none ↦ ok ips ]

  unfoldable pub check_ranges : Text → List RangeSet → Result Error (List RangeSet)
  check_ranges version ranges = if length ranges == 0 then err no_ranges else do
    v ← validate ranges
    if (ltb 1 v.num_v4 || ltb 1 v.num_v6) && not (at_least version (text "0.3.0"))
        then err too_many_per_family
        else if sets_overlap v.ranges
        then err range_sets_overlap
        else ok v.ranges

  -- `LoadIPAMConfig` after the test for the key `ipam`
  unfoldable pub load_ipam : Text → NetConf → IpamConfig → Result Error (IpamConfig × Text)
  load_ipam args n ipam = do
    ips ← env_ips args ipam.ip_args
    ips' ← canonicalize_args ((ips ++ args_ips n.args) ++ to_ips n.runtime_ips)
    ranges ← check_ranges n.cni_version (all_ranges n ipam)
    ok (record ipam { range = none; name = n.name; ranges = ranges; ip_args = ips' }, n.cni_version)

  -- `LoadIPAMConfig`
  unfoldable pub load_ipam_config : Text → Text → Result Error (IpamConfig × Text)
  load_ipam_config bytes args = do
    n ← unmarshal bytes
    elim n.ipam [ none ↦ err missing_ipam | some ipam ↦ load_ipam args n ipam ]
