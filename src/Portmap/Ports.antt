-- ===== src/Portmap/Ports.antt =====
-- The data of plugins/meta/portmap/main.go and the helpers of utils.go. Ports are positive when the
-- helpers see them, which `parseConfig` ensures; the text form of addresses is a parameter.
use plugins.Prelude.{
  ℕ, List, [], ◌∷◌, ◌++◌, map, Bool, true, false, ◌&&◌, ◌||◌, Option, Text, text, text_eq, itoa,
  length, take, ◌==◌, leb, ltb, if◌then◌else◌,
}
use plugins.Net.{Ip, to4, is_nil}

pub record PortMapEntry : Type 0 where
  pub host_port : ℕ
  pub container_port : ℕ
  pub protocol : Text
  pub host_ip : Text

pub record PortMapConf : Type 0 where
  pub name : Text
  pub snat : Bool
  pub conditions_v4 : Option (List Text)
  pub conditions_v6 : Option (List Text)
  pub mark_masq_bit : ℕ
  pub external_set_mark_chain : Option Text
  pub port_maps : List PortMapEntry
  pub container_id : Text

abbrev pub is_v6 : Ip → Bool
is_v6 ip = is_nil (to4 ip)

-- `fmtIpPort`
unfoldable pub fmt_ip_port : (Ip → Text) → Ip → ℕ → Text
fmt_ip_port ip_string ip port =
    if is_v6 ip
    then text "[" ++ (ip_string ip ++ (text "]:" ++ itoa port))
    else ip_string ip ++ (text ":" ++ itoa port)

unfoldable pub localhost_ip : Bool → Text
localhost_ip v6 = if v6 then text "::1" else text "127.0.0.1"

-- A map from protocols to ports, in the order of the first entry of each protocol.
abbrev pub ProtoPorts : Type 0
ProtoPorts = List (Text × List ℕ)

unfoldable pub add_port : Text → ℕ → ProtoPorts → ProtoPorts
add_port proto port [] = (proto, port ∷ []) ∷ []
add_port proto port ((p, ports) ∷ m) =
    if text_eq p proto then (p, ports ++ port ∷ []) ∷ m else (p, ports) ∷ add_port proto port m

-- The loop of `groupByProto`.
unfoldable pub group_onto : ProtoPorts → List PortMapEntry → ProtoPorts
group_onto m [] = m
group_onto m (e ∷ rest) = group_onto (add_port e.protocol e.host_port m) rest

unfoldable pub group_by_proto : List PortMapEntry → ProtoPorts
group_by_proto entries = group_onto [] entries

-- the order of `sort.Strings`
unfoldable pub text_le : Text → Text → Bool
text_le [] ys = true
text_le (x ∷ xs) [] = false
text_le (x ∷ xs) (y ∷ ys) = ltb x y || x == y && text_le xs ys

unfoldable pub insert_proto : Text × List ℕ → ProtoPorts → ProtoPorts
insert_proto e [] = e ∷ []
insert_proto e (f ∷ m) = if text_le e.0 f.0 then e ∷ f ∷ m else f ∷ insert_proto e m

-- The protocols in order, with their ports.
unfoldable pub sort_protos : ProtoPorts → ProtoPorts
sort_protos [] = []
sort_protos (e ∷ m) = insert_proto e (sort_protos m)

abbrev pub max_ports : ℕ
max_ports = 15

-- The loop of `splitPortList`, with the groups as lists of ports: `acc` is the open group, and a
-- group of 15 is closed.
unfoldable pub split_onto : List ℕ → List ℕ → List (List ℕ)
split_onto [] [] = []
split_onto (a ∷ rest) [] = (a ∷ rest) ∷ []
split_onto acc (p ∷ ports) =
    let full = acc ++ p ∷ [] in
    let close = full ∷ split_onto [] ports in
    let extend = split_onto full ports in if length full == max_ports then close else extend

-- `strings.Join` of the ports, with a comma
unfoldable pub join_ports : List ℕ → Text
join_ports [] = []
join_ports (p ∷ []) = itoa p
join_ports (p ∷ q ∷ ports) = itoa p ++ (text "," ++ join_ports (q ∷ ports))

unfoldable pub split_port_list : List ℕ → List Text
split_port_list ports = map join_ports (split_onto [] ports)

-- `trimComment`
unfoldable pub trim_comment : Text → Text
trim_comment val = if leb (length val) 255 then val else take 253 val ++ text "..."
