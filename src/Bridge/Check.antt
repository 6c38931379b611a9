-- ===== src/Bridge/Check.antt =====
-- The command CHECK of plugins/main/bridge/bridge.go. A wrapped error is the error itself.
pub mod Connected
pub mod Shown
pub mod Known
use plugins.Prelude.{
  ℕ, List, [], ◌∷◌, Bool, true, false, ◌&&◌, ◌||◌, not, Option, none, some, Result, ok, err, Text,
  text_eq, length, ◌==◌, ltb, if◌then◌else◌,
}
use plugins.Prelude.Effects.{Act, pure, lift, check_that, relabel, ◌>>=◌, ◌>>◌}
use plugins.Net.{IpNet}
use plugins.Links.{LinkError, Link, Kind, bridge, veth, Netlink, Interface, AddResult}
use plugins.Links.Veth.{get_veth_peer_ifindex}
use plugins.Links.Expected.{validate_expected_interface_ips, validate_expected_route}
use plugins.Bridge.{NetConf, load_net_conf}
use plugins.Bridge.Layer3.{Calls, CmdArgs}

-- `cniBridgeIf`
pub record CniBridgeIf : Type 0 where
  pub name : Text
  pub if_index : ℕ
  pub peer_index : ℕ
  pub master_index : ℕ
  pub found : Bool

abbrev pub no_if : CniBridgeIf
no_if = record { name = []; if_index = 0; peer_index = 0; master_index = 0; found = false }

abbrev pub no_interface : Interface
no_interface = record { name = []; mac = []; sandbox = [] }

abbrev pub is_set : Text → Bool
is_set t = ltb 0 (length t)

abbrev pub is_veth : Kind → Bool
is_veth veth = true
is_veth _ = false

abbrev pub is_bridge : Kind → Bool
is_bridge bridge = true
is_bridge _ = false

-- `intf.Mac == "" || intf.Mac == link.Attrs().HardwareAddr.String()`
abbrev pub mac_fits : Interface → Link → Bool
mac_fits intf l = not (is_set intf.mac) || text_eq intf.mac l.hardware_addr

-- the fields of a veth pair: what the link and its peer show
abbrev pub veth_if : Link → ℕ → Bool → CniBridgeIf
veth_if l peer found = record {
  name = if found then l.name else [];
  if_index = l.index;
  peer_index = peer;
  master_index = l.master_index;
  found = found;
}

abbrev pub is_peer : CniBridgeIf → CniBridgeIf → CniBridgeIf → Bool
is_peer br cont v =
    v.if_index == cont.peer_index && cont.if_index == v.peer_index && v.master_index == br.if_index

module _ {S : Type 0} (nl : Netlink S) where
  -- `validateInterface`: the link
  unfoldable pub validate_interface : Interface → Bool → Act LinkError S Link
  validate_interface intf expect_in_sb =
      check_that (is_set intf.name) LinkError.name_missing
      >> (relabel LinkError.lookup_failed (nl.link_by_name intf.name) >>= λ l.
          check_that (if expect_in_sb then is_set intf.sandbox else not (is_set intf.sandbox))
            LinkError.bad_sandbox
          >> pure l)

  unfoldable pub validate_cni_br_interface : Interface → NetConf → Act LinkError S CniBridgeIf
  unfolding validate_interface
  validate_cni_br_interface intf n = validate_interface intf false >>= λ l.
      check_that (is_bridge l.kind) LinkError.not_a_bridge
      >> (check_that (mac_fits intf l) LinkError.wrong_mac
          >> (check_that (if n.promisc_mode then ltb 0 l.promisc else not (ltb 0 l.promisc))
                LinkError.wrong_promisc
              >> pure (record {
                name = l.name;
                if_index = l.index;
                peer_index = 0;
                master_index = l.master_index;
                found = true;
              })))

  -- the end of `validateCniVethInterface`, with whether the indexes fit
  abbrev pub peer_or_skip : Bool → Interface → Link → ℕ → Act LinkError S CniBridgeIf
  peer_or_skip true intf l peer =
      check_that (mac_fits intf l) LinkError.wrong_mac >> pure (veth_if l peer true)
  peer_or_skip false intf l peer = pure (veth_if l peer false)

  unfoldable pub validate_cni_veth_interface :
      Interface → CniBridgeIf → CniBridgeIf → Act LinkError S CniBridgeIf
  unfolding validate_interface get_veth_peer_ifindex
  validate_cni_veth_interface intf br cont = validate_interface intf false >>= λ l.
      if is_veth l.kind
      then (relabel LinkError.not_veth (get_veth_peer_ifindex nl l.name) >>= λ p.
          peer_or_skip (is_peer br cont (veth_if l p.1 false)) intf l p.1)
      else pure no_if

  unfoldable pub validate_cni_container_interface : Interface → Act LinkError S CniBridgeIf
  unfolding validate_interface get_veth_peer_ifindex
  validate_cni_container_interface intf = validate_interface intf true >>= λ l.
      check_that (is_veth l.kind) LinkError.not_veth
      >> (relabel LinkError.not_veth (get_veth_peer_ifindex nl l.name) >>= λ p.
          check_that (mac_fits intf l) LinkError.wrong_mac
          >> pure (record (veth_if l p.1 true) { master_index = 0 }))

  -- the loop that looks for the veth; `last` is what the round before has left
  unfoldable pub find_veth :
      Text
      → Text
      → CniBridgeIf
      → CniBridgeIf
      → CniBridgeIf
      → List Interface
      → Act LinkError S CniBridgeIf
  unfolding validate_cni_veth_interface
  find_veth br_name cont_name br cont last [] = pure last
  find_veth br_name cont_name br cont last (intf ∷ interfaces) =
      if text_eq br_name intf.name || text_eq cont_name intf.name
      then find_veth br_name cont_name br cont last interfaces
      else (validate_cni_veth_interface intf br cont >>= λ v.
          let rest = find_veth br_name cont_name br cont v interfaces in
          if v.found then pure v else rest)

-- the loop that finds the bridge and the container's interface: the last one that fits counts
unfoldable pub known_interfaces :
    NetConf → CmdArgs → List Interface → Interface × Interface → Interface × Interface
known_interfaces n args [] known = known
known_interfaces n args (intf ∷ interfaces) known = known_interfaces n args interfaces (
    if text_eq n.br_name intf.name
    then (intf, known.1)
    else if text_eq args.if_name intf.name && text_eq args.netns intf.sandbox
    then (known.0, intf)
    else known)

-- What the command calls beside netlink.
pub record CheckCalls (S : Type 0) : Type 0 where
  pub exec_check : Text → Text → Act LinkError S (Unit {0})
  -- whether there is a previous result, and the result that it parses to
  pub has_prev : Text → Bool
  pub parse_prev : Text → Option AddResult
  pub addr_equal : IpNet → IpNet → Bool
  pub prefix_of : IpNet → Option IpNet

module _ {S : Type 0} (calls : Calls S) (checks : CheckCalls S) (host cont : Netlink S) where
  abbrev pub prev_result : Text → Result LinkError AddResult
  prev_result stdin =
      if checks.has_prev stdin
      then elim (checks.parse_prev stdin) [ none ↦ err LinkError.bad_config | some r ↦ ok r ]
      else err LinkError.missing_prev_result

  -- the three interfaces of a previous result: bridge, container's, and veth
  unfoldable pub check_interfaces :
      NetConf → CmdArgs → List Interface → Act LinkError S (CniBridgeIf × CniBridgeIf × CniBridgeIf)
  unfolding known_interfaces validate_cni_br_interface validate_cni_container_interface find_veth
  check_interfaces n args interfaces =
      let known = known_interfaces n args interfaces (no_interface, no_interface) in
      validate_cni_br_interface host known.0 n >>= λ br.
      check_that (text_eq args.netns known.1.sandbox) LinkError.bad_sandbox
      >> (cont.enter
          >> (validate_cni_container_interface cont known.1 >>= λ c.
              find_veth host known.0.name known.1.name br c no_if interfaces >>= λ v.
              check_that br.found LinkError.not_found
              >> (check_that c.found LinkError.not_found
                  >> (check_that v.found LinkError.not_found >> pure (br, c, v)))))

  unfoldable pub cmd_check : CmdArgs → Act LinkError S (Unit {0})
  unfolding load_net_conf check_interfaces validate_expected_interface_ips validate_expected_route
  cmd_check args = lift (load_net_conf calls.decode calls.load_args args.stdin args.args) >>= λ n.
      calls.open_ns args.netns
      >> (checks.exec_check n.ipam_type args.stdin
          >> (lift (prev_result args.stdin) >>= λ r. check_interfaces n args r.interfaces >>= λ ifs.
              cont.enter
              >> (validate_expected_interface_ips cont calls.net_text checks.addr_equal
                    checks.prefix_of args.if_name r.ips
                  >> validate_expected_route cont calls.net_text checks.addr_equal checks.prefix_of
                      r.routes)))
