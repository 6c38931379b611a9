-- ===== src/Examples/Maps.antt =====
-- Lists of ports, comments and names of chains.
use plugins.Prelude.{
  Option, Result, ok, ℕ, zero, suc, ◌+◌, ◌≡◌, refl, List, [], ◌∷◌, some, none, length, Text, text,
  true,
}
use plugins.Prelude.Int.{pos}
use plugins.Net.{IpNet, to4}
use plugins.Portmap.Ports.{PortMapEntry}
use plugins.Portmap.Parse.{
  ParseError, RawConf, PrevResult, Parsed, parse_config, mark_bit, valid_entries, ResultIp,
  Interface, is_other_interface, pick,
}

abbrev on_eth0 : Interface
on_eth0 = record { name = text "eth0"; sandbox = text "/proc/7/ns/net" }

abbrev on_host : Interface
on_host = record { name = text "cni0"; sandbox = [] }

abbrev net_of : ℕ → IpNet
net_of n = record { ip = 10 ∷ 0 ∷ 0 ∷ n ∷ []; mask = 255 ∷ 255 ∷ 255 ∷ 0 ∷ [] }

-- an address of the bridge, then two of the container
abbrev three_ips : List ResultIp
three_ips =
    record { address = net_of 1; interface = some (pos 0) }
    ∷ record { address = net_of 2; interface = some (pos 1) }
    ∷ record { address = net_of 3; interface = none }
    ∷ []

abbrev both : List Interface
both = on_host ∷ on_eth0 ∷ []

takes_second : pick (text "eth0") both none none three_ips ≡ (some (net_of 2), none)
unfolding pick is_other_interface to4
takes_second = refl

abbrev web : PortMapEntry
web = record { host_port = 8080; container_port = 80; protocol = text "tcp"; host_ip = [] }

abbrev decoded : Text → Result ParseError RawConf
decoded stdin = ok (record {
  name = text "net";
  snat = none;
  conditions_v4 = none;
  conditions_v6 = none;
  mark_masq_bit = none;
  external_set_mark_chain = none;
  port_maps =
      record { host_port = pos 8080; container_port = pos 80; protocol = text "tcp"; host_ip = [] }
      ∷ [];
})

abbrev no_result : Text → Result ParseError (Option PrevResult)
no_result stdin = ok none

abbrev parsed : Parsed
parsed = record {
  conf = record {
    name = text "net";
    snat = true;
    conditions_v4 = none;
    conditions_v6 = none;
    mark_masq_bit = 13;
    external_set_mark_chain = none;
    port_maps = web ∷ [];
    container_id = text "box-a";
  };
  cont_ipv4 = none;
  cont_ipv6 = none;
  prev_result = none;
}

parses : parse_config decoded no_result [] (text "eth0") (text "box-a") ≡ ok parsed
unfolding parse_config mark_bit valid_entries
parses = refl

abbrev count : ℕ → List ℕ
count zero = []
count (suc n) = (n + 8000) ∷ count n

abbrev long_comment : Text
long_comment = count 300

abbrev same_hash : Text → Text
same_hash t = count 128

same_hash-length : (t : Text) → length (same_hash t) ≡ 128
same_hash-length t = refl
