-- ===== src/Portmap/Rules.antt =====
-- The chains that plugins/meta/portmap/portmap.go generates.
use plugins.ChainNames.{chain_name_with_prefix}
use plugins.Prelude.{
  ℕ, zero, suc, ◌+◌, ◌-◌, ◌^◌, ◌/◌, ◌%◌, List, [], ◌∷◌, ◌++◌, map, Bool, true, false, not, Option,
  none, some, Text, text, text_eq, itoa, ltb, if◌then◌else◌,
}
use plugins.Net.{Ip, IpNet, slice, is_unspecified}
use plugins.Portmap.Ports.{
  PortMapEntry, PortMapConf, sort_protos, is_v6, fmt_ip_port, group_by_proto, split_port_list,
  trim_comment,
}

abbrev pub Rule : Type 0
Rule = List Text

-- `chain`
pub record Chain : Type 0 where
  pub table : Text
  pub name : Text
  pub entry_chains : List Text
  pub entry_rules : List Rule
  pub rules : List Rule
  pub prepend_entry : Bool

abbrev pub top_level_dnat : Text
top_level_dnat = text "CNI-HOSTPORT-DNAT"

abbrev pub set_mark_chain_name : Text
set_mark_chain_name = text "CNI-HOSTPORT-SETMARK"

abbrev pub mark_masq_chain_name : Text
mark_masq_chain_name = text "CNI-HOSTPORT-MASQ"

abbrev pub old_top_level_snat : Text
old_top_level_snat = text "CNI-HOSTPORT-SNAT"

unfoldable pub gen_toplevel_dnat_chain : Chain
gen_toplevel_dnat_chain = record {
  table = text "nat";
  name = top_level_dnat;
  entry_chains = text "PREROUTING" ∷ text "OUTPUT" ∷ [];
  entry_rules = (text "-m" ∷ text "addrtype" ∷ text "--dst-type" ∷ text "LOCAL" ∷ []) ∷ [];
  rules = [];
  prepend_entry = false;
}

-- a chain of a container: the name's hash is a parameter, and none is the panic of a long prefix
unfoldable pub container_chain : (Text → Text) → Text → Text → Text → Text → Option Chain
container_chain sha512_hex prefix top net_name container_id =
    elim (chain_name_with_prefix sha512_hex net_name container_id prefix) [
      | none ↦ none
      | some n ↦ some (record {
        table = text "nat";
        name = n;
        entry_chains = top ∷ [];
        entry_rules = [];
        rules = [];
        prepend_entry = false;
      })
    ]

unfoldable pub gen_dnat_chain : (Text → Text) → Text → Text → Option Chain
gen_dnat_chain sha512_hex = container_chain sha512_hex (text "DN-") top_level_dnat

unfoldable pub gen_old_snat_chain : (Text → Text) → Text → Text → Option Chain
gen_old_snat_chain sha512_hex = container_chain sha512_hex (text "SN-") old_top_level_snat

hex_onto : ℕ → ℕ → Text → Text
hex_onto zero n acc = acc
hex_onto (suc fuel) n acc =
    let d = n % 16 in
    let c = if ltb d 10 then b'0' + d else b'a' + (d - 10) in
    let rest = hex_onto fuel (n / 16) (c ∷ acc) in if ltb n 16 then c ∷ acc else rest

-- `%#x` of a mark; 32 bits are 8 digits
unfoldable pub hex : ℕ → Text
unfolding hex_onto
hex n = text "0x" ++ hex_onto 8 n []

-- `1 << uint(markBit)`, printed as the mark and the mask
unfoldable pub mark_def : ℕ → Text
mark_def bit = hex (2 ^ bit) ++ (text "/" ++ hex (2 ^ bit))

unfoldable pub gen_set_mark_chain : ℕ → Chain
gen_set_mark_chain bit = record {
  table = text "nat";
  name = set_mark_chain_name;
  entry_chains = [];
  entry_rules = [];
  rules =
      (text "-m"
        ∷ text "comment"
        ∷ text "--comment"
        ∷ text "CNI portfwd masquerade mark"
        ∷ text "-j"
        ∷ text "MARK"
        ∷ text "--set-xmark"
        ∷ mark_def bit
        ∷ [])
      ∷ [];
  prepend_entry = false;
}

unfoldable pub gen_mark_masq_chain : ℕ → Chain
gen_mark_masq_chain bit = record {
  table = text "nat";
  name = mark_masq_chain_name;
  entry_chains = text "POSTROUTING" ∷ [];
  entry_rules =
      (text "-m" ∷ text "comment" ∷ text "--comment" ∷ text "CNI portfwd requiring masquerade" ∷ [])
      ∷ [];
  rules =
      (text "-m" ∷ text "mark" ∷ text "--mark" ∷ mark_def bit ∷ text "-j" ∷ text "MASQUERADE" ∷ [])
      ∷ [];
  prepend_entry = true;
}

-- The text forms of addresses that the rules use: `IP.String`, `IPNet.String`, `net.ParseIP`.
pub record Texts : Type 0 where
  pub ip_string : Ip → Text
  pub net_string : IpNet → Text
  pub parse_ip : Text → Option Ip

module _ (texts : Texts) (config : PortMapConf) (container : IpNet) where
  abbrev pub v6 : Bool
  v6 = is_v6 container.ip

  abbrev pub set_mark_name : Text
  set_mark_name = elim config.external_set_mark_chain [ none ↦ set_mark_chain_name | some c ↦ c ]

  -- The conditions of the container's family; a list that is nil or empty adds nothing.
  abbrev pub conditions : List Text
  conditions =
      if v6
      then elim config.conditions_v6 [ none ↦ [] | some c ↦ c ]
      else elim config.conditions_v4 [ none ↦ [] | some c ↦ c ]

  abbrev comment : Text
  comment = trim_comment (
      text "dnat name: \""
      ++ (config.name ++ (text "\" id: \"" ++ (config.container_id ++ text "\""))))

  abbrev entry_rule : Text → Text → Rule
  entry_rule proto port_spec =
      (text "-m"
        ∷ text "comment"
        ∷ text "--comment"
        ∷ comment
        ∷ text "-m"
        ∷ text "multiport"
        ∷ text "-p"
        ∷ proto
        ∷ text "--destination-ports"
        ∷ port_spec
        ∷ [])
      ++ conditions

  unfoldable pub entry_rules_of : List (Text × List ℕ) → List Rule
  entry_rules_of [] = []
  entry_rules_of ((proto, ports) ∷ rest) =
      map (entry_rule proto) (split_port_list ports) ++ entry_rules_of rest

  -- whether the host address of an entry is of the container's family, and its destination match
  unfoldable pub applies : PortMapEntry → Bool
  applies e =
      if text_eq e.host_ip []
      then true
      else (if is_v6 (slice (texts.parse_ip e.host_ip)) then v6 else not v6)

  unfoldable pub base_dst : PortMapEntry → List Text
  base_dst e =
      if text_eq e.host_ip []
      then []
      else if is_unspecified (slice (texts.parse_ip e.host_ip))
      then []
      else text "-d" ∷ e.host_ip ∷ []

  abbrev pub rule_base : PortMapEntry → Rule
  rule_base e = (text "-p" ∷ e.protocol ∷ text "--dport" ∷ itoa e.host_port ∷ []) ++ base_dst e

  abbrev pub mark_rule : PortMapEntry → Text → Rule
  mark_rule e source = rule_base e ++ (text "-s" ∷ source ∷ text "-j" ∷ set_mark_name ∷ [])

  abbrev pub dnat_rule : PortMapEntry → Rule
  dnat_rule e =
      rule_base e
      ++ (text "-j"
          ∷ text "DNAT"
          ∷ text "--to-destination"
          ∷ fmt_ip_port texts.ip_string container.ip e.container_port
          ∷ [])

  -- The rules of one entry: the marks for hairpin and for localhost, and then the translation.
  abbrev pub marks : PortMapEntry → List Rule
  marks e =
      if config.snat
      then mark_rule e (texts.net_string container)
        ∷ (if v6 then [] else mark_rule e (text "127.0.0.1") ∷ [])
      else []

  -- The second loop of `fillDnatRules`.
  unfoldable pub rules_of : List PortMapEntry → List Rule
  rules_of [] = []
  rules_of (e ∷ rest) =
      if applies e then marks e ++ (dnat_rule e ∷ rules_of rest) else rules_of rest

  -- `fillDnatRules`
  unfoldable pub fill_dnat_rules : Chain → Chain
  fill_dnat_rules c = record c {
    entry_rules = c.entry_rules ++ entry_rules_of (sort_protos (group_by_proto config.port_maps));
    rules = rules_of config.port_maps;
  }
