-- ===== src/Portmap/Parse.antt =====
-- `parseConfig` of plugins/meta/portmap/main.go. Decoding the JSON of the configuration and of the
-- previous result is a parameter.
pub mod Chosen
pub mod Valid
use plugins.Prelude.{
  ℕ, zero, suc, ◌+◌, ◌≡◌, refl, List, [], ◌∷◌, Bool, true, false, ◌&&◌, ◌||◌, not, Option, none,
  some, Result, ok, err, ◌>>=◌, Text, text_eq, length, get_elem?, ◌==◌, ltb, if◌then◌else◌, arith,
}
use plugins.Prelude.Int.{ℤ, pos, negsuc}
use plugins.Net.{Ip, IpNet, to4, is_nil}
use plugins.Portmap.Ports.{PortMapEntry, PortMapConf, is_v6}

pub data ParseError : Type 0 where
  bad_config bad_prev_result mark_and_chain bad_mark bad_container_port bad_host_port : ParseError

pub record RawEntry : Type 0 where
  pub host_port : ℤ
  pub container_port : ℤ
  pub protocol : Text
  pub host_ip : Text

pub record ResultIp : Type 0 where
  pub address : IpNet
  pub interface : Option ℤ

pub record Interface : Type 0 where
  pub name : Text
  pub sandbox : Text

pub record PrevResult : Type 0 where
  pub ips : List ResultIp
  pub interfaces : List Interface

-- `PortMapConf` as it is decoded
pub record RawConf : Type 0 where
  pub name : Text
  pub snat : Option Bool
  pub conditions_v4 : Option (List Text)
  pub conditions_v6 : Option (List Text)
  pub mark_masq_bit : Option ℤ
  pub external_set_mark_chain : Option Text
  pub port_maps : List RawEntry

-- the configuration with the container's addresses and the previous result
pub record Parsed : Type 0 where
  pub conf : PortMapConf
  pub cont_ipv4 : Option IpNet
  pub cont_ipv6 : Option IpNet
  pub prev_result : Option PrevResult

unfoldable pub mark_bit : RawConf → Result ParseError ℕ
mark_bit raw =
    if not (is_nil raw.mark_masq_bit) && not (is_nil raw.external_set_mark_chain)
    then err mark_and_chain
    else elim raw.mark_masq_bit [
      | none ↦ ok 13
      | some (negsuc n) ↦ err bad_mark
      | some (pos n) ↦ if ltb 31 n then err bad_mark else ok n
    ]

-- A port number that is positive, which is all the source asks.
abbrev pub positive : ParseError → ℤ → Result ParseError ℕ
positive e (pos zero) = err e
positive e (pos (suc n)) = ok (suc n)
positive e (negsuc n) = err e

unfoldable pub valid_entries : List RawEntry → Result ParseError (List PortMapEntry)
valid_entries [] = ok []
valid_entries (pm ∷ rest) = do
  container_port ← positive bad_container_port pm.container_port
  host_port ← positive bad_host_port pm.host_port
  entries ← valid_entries rest
  let entry : PortMapEntry = record {
    host_port = host_port;
    container_port = container_port;
    protocol = pm.protocol;
    host_ip = pm.host_ip;
  }
  ok (entry ∷ entries)

-- an interface of the previous result that is known not to be the container's
unfoldable pub is_other_interface : Text → List Interface → ResultIp → Bool
is_other_interface if_name interfaces ip = elim ip.interface [
  | none ↦ false
  | some (negsuc n) ↦ false
  | some (pos n) ↦ elim (get_elem? interfaces n) [
    | none ↦ false
    | some i ↦ not (text_eq i.name if_name) || text_eq i.sandbox []
  ]
]

-- An address is set while its `IP` is not nil.
abbrev pub set_address : IpNet → Option IpNet
set_address net = if length net.ip == 0 then none else some net

-- The loop over the addresses of the previous result.
unfoldable pub pick :
    Text
    → List Interface
    → Option IpNet
    → Option IpNet
    → List ResultIp
    → Option IpNet × Option IpNet
pick if_name interfaces v4 v6 [] = (v4, v6)
pick if_name interfaces v4 v6 (ip ∷ rest) =
    let keep = pick if_name interfaces v4 v6 rest in
    let as_v4 = pick if_name interfaces (set_address ip.address) v6 rest in
    let as_v6 = pick if_name interfaces v4 (set_address ip.address) rest in
    if is_v6 ip.address.ip
    then (if not (is_nil v6) || is_other_interface if_name interfaces ip then keep else as_v6)
    else if not (is_nil v4) || is_other_interface if_name interfaces ip
    then keep
    else as_v4

abbrev pub pick_from : Text → Option PrevResult → Option IpNet × Option IpNet
pick_from if_name none = (none, none)
pick_from if_name (some res) = pick if_name res.interfaces none none res.ips

abbrev pub default_true : Option Bool → Bool
default_true none = true
default_true (some b) = b

module _ (unmarshal : Text → Result ParseError RawConf)
    (prev_result : Text → Result ParseError (Option PrevResult)) where
  -- `parseConfig`; `container_id` is set by the commands afterwards
  unfoldable pub parse_config : Text → Text → Text → Result ParseError Parsed
  parse_config stdin if_name container_id = do
    raw ← unmarshal stdin
    prev ← prev_result stdin
    bit ← mark_bit raw
    entries ← valid_entries raw.port_maps
    let (v4, v6) = pick_from if_name prev
    let conf : PortMapConf = record {
      name = raw.name;
      snat = default_true raw.snat;
      conditions_v4 = raw.conditions_v4;
      conditions_v6 = raw.conditions_v6;
      mark_masq_bit = bit;
      external_set_mark_chain = raw.external_set_mark_chain;
      port_maps = entries;
      container_id = container_id;
    }
    ok (record { conf = conf; cont_ipv4 = v4; cont_ipv6 = v6; prev_result = prev })
