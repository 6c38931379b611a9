-- ===== src/Examples/Bandwidths.antt =====
-- A limit of a container's traffic.
use plugins.Prelude.{refl, [], ◌∷◌, Option, none, some, ok, text}
use plugins.Bandwidth.{
  BandwidthEntry, PluginConf, Interface, get_bandwidth, validate_rate_and_burst, validate_entry,
  parse_config,
}
use plugins.Bandwidth.Check.{IsLimit, parse_config-IsLimit}

program : Unit {0}
unfolding get_bandwidth validate_rate_and_burst validate_entry parse_config
program = tt

abbrev entry : BandwidthEntry
entry = record { ingress_rate = 8000000; ingress_burst = 80000; egress_rate = 0; egress_burst = 0 }

abbrev veth : Interface
veth = record { name = text "veth0"; mac = []; sandbox = [] }

abbrev conf_with : Option BandwidthEntry → PluginConf
conf_with o = record {
  name = text "net";
  entry = none;
  runtime_entry = o;
  prev_result = some (veth ∷ []);
}

parse_config-IsLimit_example : IsLimit 8000000 80000 × IsLimit 0 0
unfolding program
parse_config-IsLimit_example =
    parse_config-IsLimit (ok (conf_with (some entry))) (conf_with (some entry)) entry refl refl
