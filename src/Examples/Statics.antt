-- ===== src/Examples/Statics.antt =====
-- The static addresses of a configuration, of CNI_ARGS and of the runtime.
use plugins.Prelude.{
  ◌≡◌, refl, [], ◌∷◌, Bool, true, Option, none, some, Result, ok, Text, text, text_eq, trim_space,
  if◌then◌else◌,
}
use plugins.Net.{Ip, IpNet, to4, to16, equal, net_contains}
use plugins.HostLocal.Dns.{empty_dns}
use plugins.HostLocal.Range.{canonicalize_ip}
use plugins.Static.{
  Address, IpamConfig, NetConf, EnvArgs, StaticError, split_commas, parse_address, env_addresses,
  env_gateways, parse_ips, override, validate_address, validate, from_env, checked, load_ipam,
  load_ipam_config, add_result, cmd_check, check_addresses, check_address,
}
use plugins.Static.Chosen.{result_nets, nets-load_ipam_config}
use plugins.Static.Check.{cmd_check-add_result}

program : Unit {0}
unfolding to4 to16 equal net_contains canonicalize_ip split_commas trim_space parse_address
    env_addresses env_gateways parse_ips override validate_address validate from_env checked
    load_ipam load_ipam_config
program = tt

abbrev net_of_24 : Ip → IpNet
net_of_24 ip = record { ip = ip; mask = 255 ∷ 255 ∷ 255 ∷ 0 ∷ [] }

-- the two addresses that are written in CIDR notation below
abbrev parse_cidr : Text → Option (Ip × IpNet)
parse_cidr s =
    if text_eq s (text "10.0.0.2/24")
    then some (10 ∷ 0 ∷ 0 ∷ 2 ∷ [], net_of_24 (10 ∷ 0 ∷ 0 ∷ 0 ∷ []))
    else if text_eq s (text "10.0.1.2/24")
    then some (10 ∷ 0 ∷ 1 ∷ 2 ∷ [], net_of_24 (10 ∷ 0 ∷ 1 ∷ 0 ∷ []))
    else none

abbrev parse_ip : Text → Option Ip
parse_ip s = some (10 ∷ 0 ∷ 1 ∷ 1 ∷ [])

abbrev configured : Address
configured = record {
  address_str = text "10.0.0.2/24";
  gateway = none;
  address = record { ip = []; mask = [] };
}

abbrev ipam : IpamConfig
ipam = record { name = []; routes = []; addresses = configured ∷ []; dns = empty_dns }

abbrev conf : NetConf
conf = record {
  name = text "net";
  cni_version = text "0.4.0";
  ipam = some ipam;
  runtime_ips = [];
  args = none;
}

abbrev unmarshal : Text → Result StaticError NetConf
unmarshal bytes = ok conf

abbrev load_args : Text → Result StaticError EnvArgs
load_args args = ok (record { ip = text " 10.0.1.2/24"; gateway = text "10.0.1.1" })

abbrev at_least : Text → Text → Bool
at_least v w = true

abbrev loaded : IpamConfig
loaded = record {
  name = text "net";
  routes = [];
  addresses =
      record {
        address_str = text "10.0.0.2/24";
        gateway = none;
        address = net_of_24 (10 ∷ 0 ∷ 0 ∷ 2 ∷ []);
      }
      ∷ record {
        address_str = text "10.0.1.2/24";
        gateway = some (10 ∷ 0 ∷ 1 ∷ 1 ∷ []);
        address = net_of_24 (10 ∷ 0 ∷ 1 ∷ 2 ∷ []);
      }
      ∷ [];
  dns = empty_dns;
}

nets-load_ipam_config_example :
    result_nets (add_result loaded)
    ≡ some (net_of_24 (10 ∷ 0 ∷ 0 ∷ 2 ∷ [])) ∷ some (net_of_24 (10 ∷ 0 ∷ 1 ∷ 2 ∷ [])) ∷ []
unfolding program
nets-load_ipam_config_example =
    nets-load_ipam_config parse_cidr unmarshal load_args parse_ip at_least [] (text "IP")
      (text "0.4.0") conf ipam loaded refl refl refl

cmd_check-add_result_example : cmd_check loaded (some (add_result loaded).ips) ≡ ok tt
unfolding program
cmd_check-add_result_example = cmd_check-add_result loaded ((refl, tt), (tt, tt))

-- An address that the result does not have is no error.
absent_accepted : cmd_check loaded (some []) ≡ ok tt
unfolding cmd_check check_addresses check_address
absent_accepted = refl
