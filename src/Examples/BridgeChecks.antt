-- ===== src/Examples/BridgeChecks.antt =====
-- A check of a container that a pair joins to a bridge.
use plugins.Prelude.{
  text_eq, List, [], ◌∷◌, ◌≡◌, refl, true, none, some, ok, Text, text, if◌then◌else◌,
}
use plugins.Prelude.Int.{pos}
use plugins.Prelude.Effects.{pure}
use plugins.Links.{Link, veth, Netlink, Interface}
use plugins.Links.Veth.{get_veth_peer_ifindex}
use plugins.Bridge.Check.{
  CniBridgeIf, CheckCalls, no_interface, validate_interface, validate_cni_br_interface,
  validate_cni_veth_interface, validate_cni_container_interface, find_veth, known_interfaces,
  check_interfaces,
}
use plugins.Bridge.Check.Connected.{AreJoined, check_interfaces-IsConnected}
use plugins.Examples.Bridges.{World, done, some_link, netlink, before, conf, calls, args}

-- the ends of a pair: "veth1" is a port of the bridge, "eth0" is in the container
abbrev pair_link : Text → Link
pair_link name =
    if text_eq name (text "veth1")
    then record (some_link name) { kind = veth; index = 7; parent_index = pos 5; master_index = 4 }
    else if text_eq name (text "eth0")
    then record (some_link name) { kind = veth; index = 5; parent_index = pos 7 }
    else some_link name

abbrev pair_netlink : Netlink World
pair_netlink = record netlink { link_by_name = λ name. pure (pair_link name) }

abbrev checks : CheckCalls World
checks = record {
  exec_check = λ type config. done;
  has_prev = λ config. true;
  parse_prev = λ config. none;
  addr_equal = λ n m. text_eq n.ip m.ip;
  prefix_of = λ n. some n;
}

abbrev interfaces : List Interface
interfaces =
    record no_interface { name = text "cni0" }
    ∷ record no_interface { name = text "veth1" }
    ∷ record { name = text "eth0"; mac = text "aa:bb"; sandbox = text "/run/netns/c1" }
    ∷ []

abbrev br_if : CniBridgeIf
br_if = record { name = text "cni0"; if_index = 4; peer_index = 0; master_index = 0; found = true }

abbrev cont_if : CniBridgeIf
cont_if = record {
  name = text "eth0";
  if_index = 5;
  peer_index = 7;
  master_index = 0;
  found = true;
}

abbrev host_if : CniBridgeIf
host_if = record {
  name = text "veth1";
  if_index = 7;
  peer_index = 5;
  master_index = 4;
  found = true;
}

checked :
    (check_interfaces calls checks pair_netlink pair_netlink conf args interfaces before).0
    ≡ ok (br_if, cont_if, host_if)
unfolding check_interfaces known_interfaces validate_cni_br_interface find_veth
    validate_cni_veth_interface validate_cni_container_interface validate_interface
    get_veth_peer_ifindex
checked = refl

check_interfaces-IsConnected_example :
    AreJoined pair_netlink pair_netlink conf.br_name args.if_name interfaces
      (br_if, cont_if, host_if)
check_interfaces-IsConnected_example =
    check_interfaces-IsConnected calls checks pair_netlink pair_netlink conf args interfaces before
      br_if cont_if host_if checked
