-- ===== src/Examples/Configs.antt =====
-- A configuration with one subnet, 10.0.0.0/24, and what becomes of it.
use plugins.Prelude.{
  ◌≡◌, refl, List, [], ◌∷◌, Bool, true, Option, none, some, Text, text, Result, ok, err,
}
use plugins.Net.{IpNet, to4, to16, equal, mask_ip, mask_size, and_bytes}
use plugins.Cidr.{next_ip}
use plugins.HostLocal.Types.{Error, Range, RangeSet, bad_args}
use plugins.HostLocal.Range
use plugins.HostLocal.RangeSet
use plugins.HostLocal.Config.{
  IpamConfig, NetConf, canonicalize_args, validate, sets_overlap, all_ranges, env_ips, check_ranges,
  load_ipam, load_ipam_config,
}

-- what the loading computes with
program : Unit {0}
unfolding load_ipam_config load_ipam env_ips canonicalize_args check_ranges all_ranges validate
    sets_overlap RangeSet.canonicalize RangeSet.canonicalize_each RangeSet.self_overlaps
    Range.canonicalize Range.canonicalize_subnet Range.canonicalize_ip Range.canonicalize_gateway
    Range.canonicalize_start Range.canonicalize_end Range.last_ip Range.host_bytes
    Range.decrement_at to4 to16 equal mask_ip mask_size and_bytes next_ip
program = tt

abbrev subnet : IpNet
subnet = record { ip = 10 ∷ 0 ∷ 0 ∷ 0 ∷ []; mask = 255 ∷ 255 ∷ 255 ∷ 0 ∷ [] }

abbrev given : Range
given = record { range_start = none; range_end = none; subnet = subnet; gateway = none }

abbrev completed : Range
completed = record {
  range_start = some (10 ∷ 0 ∷ 0 ∷ 1 ∷ []);
  range_end = some (10 ∷ 0 ∷ 0 ∷ 254 ∷ []);
  subnet = subnet;
  gateway = some (10 ∷ 0 ∷ 0 ∷ 1 ∷ []);
}

set_completed : RangeSet.canonicalize (given ∷ []) ≡ ok (completed ∷ [])
unfolding program
set_completed = refl

abbrev ipam_of : Option Range → List RangeSet → IpamConfig
ipam_of range ranges = record {
  range = range;
  name = text "mynet";
  data_dir = [];
  resolv_conf = [];
  ranges = ranges;
  ip_args = [];
}

abbrev decoded : Text → Result Error NetConf
decoded bytes = ok (record {
  name = text "mynet";
  cni_version = text "1.0.0";
  ipam = some (ipam_of (some given) []);
  runtime_ranges = [];
  runtime_ips = [];
  args = none;
})

abbrev no_args : Text → Result Error IpNet
no_args s = err bad_args

abbrev recent : Text → Text → Bool
recent v w = true
