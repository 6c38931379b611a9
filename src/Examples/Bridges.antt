-- ===== src/Examples/Bridges.antt =====
-- A bridge with gateways of both families, over a small netlink.
use mathlib.Core.List.{Memᴰ}
use mathlib.Core.List.Memᴰ
use plugins.Prelude.{
  ℕ, List, [], ◌∷◌, ◌++◌, ◌≡◌, refl, Bool, true, false, none, some, ok, err, Text, text, any, map,
  ◌&&◌, ◌==◌, if◌then◌else◌,
}
use plugins.Prelude.Int.{pos}
use plugins.Prelude.Keeps.{RestoresOnError}
use plugins.Prelude.Effects.{Act, pure, fail}
use plugins.Net.{IpNet, to4, mask_ip, and_bytes, net_contains, network_number, network_mask}
use plugins.Cidr.{next_ip, ip_to_int, int_to_ip, int_bytes, bytes_onto, set_bytes}
use plugins.HostLocal.Dns.{empty_dns}
use plugins.Sysctl.{Files}
use plugins.Iptables.{other_error, Handle}
use plugins.Links.{LinkError, Link, bridge, v4, v6, Netlink, IpConfig}
use plugins.Bridge.{
  NetConf, GwState, info, with_gateway, calc_gateway_ip, family_of, add_default, calc_gateway,
  calc_each, calc_gateways, default_net,
}
use plugins.Bridge.Gateways.{is_of}
use plugins.Bridge.Gateways.Wanted.{wanted, wanted_gateways, calc_gateways-wanted}
use plugins.Bridge.Routes.{count}
use plugins.Bridge.Routes.Loop.{count-calc_gateways}
use plugins.Bridge.Addresses.{conflicts, clear_for, ensure_addr}
use plugins.Bridge.Addresses.Overlap.{KeepsAddresses, ensure_addr-ensure_addr}
use plugins.Bridge.Frame.{NetlinkKeeps}
use plugins.Bridge.Layer3.{Calls, CmdArgs}
use plugins.Bridge.Commands.{cmd_add}
use plugins.Bridge.Commands.Release.{cmd_add-RestoresOnError}

-- the addresses of the bridge, and whether the IPAM plugin holds a reservation
pub record World : Type 0 where
  pub addrs : List IpNet
  pub reserved : Bool

abbrev pub done : Act LinkError World (Unit {0})
done = pure tt

-- a link whose port stays down
abbrev pub some_link : Text → Link
some_link name = record {
  kind = bridge;
  name = name;
  index = 4;
  parent_index = pos 0;
  master_index = 0;
  mtu = pos 1500;
  hardware_addr = text "aa:bb";
  promisc = 0;
  oper_up = false;
}

abbrev files : Files World
files = record {
  read_file = λ path. pure (text "0\n");
  write_file = λ path content. pure tt;
  path_of = λ name. name;
}

abbrev pub netlink : Netlink World
netlink = record {
  enter = done;
  link_by_name = λ name. pure (some_link name);
  add_veth = λ name peer mtu mac. done;
  add_bridge = λ name mtu vlan. done;
  link_del = λ name. done;
  link_set_up = λ l. done;
  link_set_name = λ l name. done;
  set_promisc_on = λ name. done;
  set_master = λ l br. done;
  set_hairpin = λ l mode. done;
  set_hardware_addr = λ l mac. done;
  bridge_vlan_add = λ l vlan. done;
  addr_list = λ l family s. (ok s.addrs, s);
  addr_add = λ l n s. (ok tt, record s { addrs = n ∷ s.addrs });
  addr_del = λ l n. fail LinkError.failed;
  route_add = λ r. done;
  route_del = λ r. done;
  route_add_ecmp = λ r. done;
  route_list = λ family dst gw. pure [];
  peer_stat = λ name. pure none;
  files = files;
}

abbrev net_text : IpNet → Text
net_text n = n.ip ++ n.mask

abbrev mask64 : List ℕ
mask64 = 255 ∷ 255 ∷ 255 ∷ 255 ∷ 255 ∷ 255 ∷ 255 ∷ 255 ∷ 0 ∷ 0 ∷ 0 ∷ 0 ∷ 0 ∷ 0 ∷ 0 ∷ 0 ∷ []

abbrev net6 : ℕ → IpNet
net6 n = record {
  ip = 253 ∷ n ∷ 0 ∷ 0 ∷ 0 ∷ 0 ∷ 0 ∷ 0 ∷ 0 ∷ 0 ∷ 0 ∷ 0 ∷ 0 ∷ 0 ∷ 0 ∷ 9 ∷ [];
  mask = mask64;
}

abbrev net4 : IpNet
net4 = record { ip = 10 ∷ 1 ∷ 2 ∷ 9 ∷ []; mask = 255 ∷ 255 ∷ 255 ∷ 0 ∷ [] }

abbrev pub before : World
before = record { addrs = net6 1 ∷ []; reserved = false }

abbrev after : World
after = record { addrs = net6 2 ∷ net6 1 ∷ []; reserved = false }

lawful : KeepsAddresses netlink net_text (some_link (text "cni0")) v6 (λ s. s.addrs)
lawful = record {
  list_ok = λ s addrs h. cc;
  list_none = λ s h. cc;
  list_state = λ s. refl;
  add_ok = λ s n x h m. Memᴰ.cases_cons m;
  add_there = λ s n h. Memᴰ.head refl;
  add_exists = λ s n h. cc;
  add_err = λ s n e h. cc;
  del_ok = λ s n x h m. cc;
  mac_view = λ s mac. refl;
}

adds :
    ensure_addr netlink net_text (some_link (text "cni0")) v6 (net6 2) false before ≡ (ok tt, after)
unfolding ensure_addr clear_for conflicts net_contains network_number network_mask to4 and_bytes
adds = refl

ensure_addr-ensure_addr_example :
    ensure_addr netlink net_text (some_link (text "cni0")) v6 (net6 2) true after ≡ (ok tt, after)
ensure_addr-ensure_addr_example =
    ensure_addr-ensure_addr netlink net_text (some_link (text "cni0")) v6 (λ s. s.addrs) lawful
      (net6 2) false true before after (net6 2 ∷ net6 1 ∷ []) refl adds refl

abbrev pub conf : NetConf
conf = record {
  name = text "net";
  ipam_type = text "host-local";
  dns = empty_dns;
  br_name = text "cni0";
  is_gw = true;
  is_default_gw = true;
  force_address = false;
  ip_masq = false;
  mtu = pos 1500;
  hairpin_mode = false;
  promisc_mode = false;
  vlan = pos 0;
  args_mac = [];
  runtime_mac = [];
  mac = [];
}

abbrev address : IpNet → IpConfig
address n = record { interface = none; address = n; gateway = none }

abbrev pub both : List IpConfig
both = address net4 ∷ address (net6 1) ∷ []

abbrev gateways : GwState
unfolding calc_gateway_ip mask_ip and_bytes next_ip ip_to_int int_to_ip int_bytes bytes_onto
    set_bytes to4
gateways = record {
  gws_v4 = record {
    gws = record { ip = 10 ∷ 1 ∷ 2 ∷ 1 ∷ []; mask = net4.mask } ∷ [];
    family = v4;
    default_route_found = true;
  };
  gws_v6 = record {
    gws =
        record {
          ip = 253 ∷ 1 ∷ 0 ∷ 0 ∷ 0 ∷ 0 ∷ 0 ∷ 0 ∷ 0 ∷ 0 ∷ 0 ∷ 0 ∷ 0 ∷ 0 ∷ 0 ∷ 1 ∷ [];
          mask = mask64;
        }
        ∷ [];
    family = v6;
    default_route_found = true;
  };
  routes =
      record { dst = default_net v4; gw = some (10 ∷ 1 ∷ 2 ∷ 1 ∷ []) }
      ∷ record {
        dst = default_net v6;
        gw = some (253 ∷ 1 ∷ 0 ∷ 0 ∷ 0 ∷ 0 ∷ 0 ∷ 0 ∷ 0 ∷ 0 ∷ 0 ∷ 0 ∷ 0 ∷ 0 ∷ 0 ∷ 1 ∷ []);
      }
      ∷ [];
}

calculates : calc_gateways net_text conf both [] ≡ ok (map (with_gateway true) both, gateways)
unfolding calc_gateways calc_each calc_gateway add_default calc_gateway_ip mask_ip and_bytes next_ip
    ip_to_int int_to_ip int_bytes bytes_onto set_bytes to4 family_of
calculates = refl

calc_gateways-wanted_example :
    (map (with_gateway true) both ≡ map (wanted true) both)
    × ((info v6 gateways).gws ≡ wanted_gateways true v6 both)
calc_gateways-wanted_example =
    calc_gateways-wanted net_text conf both [] (map (with_gateway true) both, gateways) v6 (λ e. cc)
      calculates

count-calc_gateways_example :
    count net_text v4 gateways.routes
    ≡ (if any (is_of v4) both && (count net_text v4 [] == 0) then 1 else count net_text v4 [])
count-calc_gateways_example =
    count-calc_gateways net_text refl conf both [] (map (with_gateway true) both, gateways) v4 refl
      refl (λ e. cc) calculates

-- the handle of go-iptables is not asked for
abbrev no_handle : Handle World
no_handle = record {
  list_chains = λ table s. (err other_error, s);
  exists_rule = λ table chain rule s. (err other_error, s);
  insert = λ table chain n rule s. (err other_error, s);
  append = λ table chain rule s. (err other_error, s);
  delete = λ table chain rule s. (err other_error, s);
  list_rules = λ table chain s. (err other_error, s);
  new_chain = λ table chain s. (err other_error, s);
  clear_chain = λ table chain s. (err other_error, s);
  delete_chain = λ table chain s. (err other_error, s);
}

abbrev pub calls : Calls World
calls = record {
  decode = λ bytes. some conf;
  load_args = λ args. some [];
  net_text = net_text;
  ip_text = λ ip. ip;
  parse_mac = λ mac. some mac;
  entropy = pure (1 ∷ 2 ∷ 3 ∷ 4 ∷ []);
  open_ns = λ path. done;
  current_ns = pure [];
  exec_add = λ type config s. (ok [], record s { reserved = true });
  new_result = λ raw. some (record { interfaces = []; ips = both; routes = []; dns = empty_dns });
  exec_del = λ type config s. (ok tt, record s { reserved = false });
  sleep = λ ms s. s;
  interface_by_name = λ name. pure 4;
  gratuitous_arp = λ ip. done;
  files = record { read_file = λ path s. none; write_file = λ path content s. (ok tt, s) };
  new_handle = λ is_v6 s. (ok no_handle, s);
  append_unique = λ table chain rule s. (err other_error, s);
  sha512_hex = λ t. t;
  quote = λ t. t;
  print_result = λ r. done;
  debug_error = false;
}

abbrev pub args : CmdArgs
args = record {
  container_id = text "c1";
  netns = text "/run/netns/c1";
  if_name = text "eth0";
  args = [];
  stdin = [];
}

abbrev pub IsFree : World → Type 0
IsFree s = s.reserved ≡ false

netlink-Keeps : NetlinkKeeps IsFree netlink
netlink-Keeps = record {
  enter = record { at = λ s h. h };
  link_by_name = λ t. record { at = λ s h. h };
  add_veth = λ n p mtu m. record { at = λ s h. h };
  add_bridge = λ n mtu v. record { at = λ s h. h };
  link_del = λ t. record { at = λ s h. h };
  link_set_up = λ l. record { at = λ s h. h };
  set_promisc_on = λ t. record { at = λ s h. h };
  set_master = λ l m. record { at = λ s h. h };
  set_hairpin = λ l b. record { at = λ s h. h };
  bridge_vlan_add = λ l v. record { at = λ s h. h };
  read_file = λ t. record { at = λ s h. h };
  write_file = λ t u. record { at = λ s h. h };
}

cmd_add-RestoresOnError_example : RestoresOnError IsFree (cmd_add calls netlink netlink args)
cmd_add-RestoresOnError_example =
    cmd_add-RestoresOnError calls netlink netlink (record { at = λ s h. h }) netlink-Keeps
      netlink-Keeps (λ path. record { at = λ s h. h })
      (λ type config. record { at = λ s h e eq. cc }) (λ type config s. refl) (λ r s. refl) args
