-- ===== src/Bridge/Check/Connected.antt =====
-- What a successful CHECK of plugins/main/bridge/bridge.go has found.
use mathlib.Core.List.{Memᴰ}
use mathlib.Core.Path.{subst}
use plugins.Prelude.{
  ℕ, List, [], ◌∷◌, ◌≡◌, refl, ap, inl, inr, Bool, true, false, ◌||◌, ok, Text, text_eq,
  if◌then◌else◌, Bool-cases, arith,
}
use plugins.Prelude.Effects.{pure, check_that, relabel, ◌>>=◌, ◌>>◌, >>=-eq_ok}
use plugins.Links.{LinkError, bridge, veth, Link, Netlink, Interface}
use plugins.Links.Veth.{get_veth_peer_ifindex}
use plugins.Bridge.{NetConf}
use plugins.Bridge.Layer3.{Calls, CmdArgs}
use plugins.Bridge.Check.{
  CniBridgeIf, CheckCalls, no_if, no_interface, is_veth, mac_fits, veth_if, is_peer,
  validate_interface, validate_cni_br_interface, peer_or_skip, validate_cni_veth_interface,
  validate_cni_container_interface, find_veth, known_interfaces, check_interfaces,
}
use plugins.Bridge.Check.Known.{known_br, known_cont}
use plugins.Bridge.Check.Shown.{
  IsShown, IsVeth, check_that-passed, relabel-passed, is_veth-eq, validate_interface-shown,
  br-IsShown, container-IsVeth,
}

-- A veth of the list that netlink shows, that is the peer of the container's interface, as that is
-- its peer, and that is a port of the bridge.
pub record IsPort {S : Type 0} (nl : Netlink S) (interfaces : List Interface) (br c v : CniBridgeIf)
    : Type 0 where
  pub interface : Interface
  pub listed : Memᴰ interface interfaces
  pub is_veth : IsVeth nl interface.name v
  pub joined : v.if_index ≡ c.peer_index
  pub joins : c.if_index ≡ v.peer_index
  pub port : is_veth.shown.link.master_index ≡ br.if_index

-- What counts as found is one.
abbrev IsRight :
    {S : Type 0} → Netlink S → List Interface → CniBridgeIf → CniBridgeIf → CniBridgeIf → Type 0
IsRight nl interfaces br c v = v.found ≡ true → IsPort nl interfaces br c v

is_peer-eq :
    (br c v : CniBridgeIf)
    → is_peer br c v ≡ true
    → (v.if_index ≡ c.peer_index) × (c.if_index ≡ v.peer_index) × (v.master_index ≡ br.if_index)
is_peer-eq br c v h = ground arith

module _ {S : Type 0} (nl : Netlink S) (br c : CniBridgeIf) (listed : List Interface) where
  peer_or_skip-IsRight :
      (b : Bool) (intf : Interface) (l : Link) (p : Link × ℕ) (at at' s : S) (v : CniBridgeIf)
      → Memᴰ intf listed
      → (nl.link_by_name intf.name at).0 ≡ ok l
      → l.kind ≡ veth
      → (get_veth_peer_ifindex nl l.name at').0 ≡ ok p
      → is_peer br c (veth_if l p.1 false) ≡ b
      → (peer_or_skip nl b intf l p.1 s).0 ≡ ok v
      → IsRight nl listed br c v
  peer_or_skip-IsRight true intf l p at at' s v m shown k known e h found =
      let (u, passed, rest) =
        >>=-eq_ok (check_that (mac_fits intf l) LinkError.wrong_mac)
          (λ u. pure (veth_if l p.1 true)) s v h in
      let same : veth_if l p.1 true ≡ v = cc in
      let (joined, joins, port) = is_peer-eq br c (veth_if l p.1 false) e in
      let link : IsShown nl veth intf.name (veth_if l p.1 true) = record {
        at = at;
        link = l;
        shown = shown;
        kind = k;
        named = refl;
        indexed = refl;
      } in
      let made : IsPort nl listed br c (veth_if l p.1 true) = record {
        interface = intf;
        listed = m;
        is_veth = record { shown = link; at = at'; found = p.0; peer = known };
        joined = joined;
        joins = joins;
        port = port;
      } in
      subst (IsPort nl listed br c) same made
  peer_or_skip-IsRight false intf l p at at' s v m shown k known e h found =
      let same : veth_if l p.1 false ≡ v = cc in
      let skipped : false ≡ v.found = ap (λ (z : CniBridgeIf). z.found) same in cc

  veth_or_skip-IsRight :
      (b : Bool) (intf : Interface) (l : Link) (at s : S) (v : CniBridgeIf)
      → Memᴰ intf listed
      → (nl.link_by_name intf.name at).0 ≡ ok l
      → is_veth l.kind ≡ b
      → ((if b
            then (relabel LinkError.not_veth (get_veth_peer_ifindex nl l.name) >>= λ p.
                peer_or_skip nl (is_peer br c (veth_if l p.1 false)) intf l p.1)
            else pure no_if)
          s).0
        ≡ ok v
      → IsRight nl listed br c v
  veth_or_skip-IsRight true intf l at s v m shown k h =
      let (p, known, rest) =
        >>=-eq_ok (relabel LinkError.not_veth (get_veth_peer_ifindex nl l.name))
          (λ p. peer_or_skip nl (is_peer br c (veth_if l p.1 false)) intf l p.1) s v h in
      peer_or_skip-IsRight (is_peer br c (veth_if l p.1 false)) intf l p at s _ v m shown
        (is_veth-eq l.kind k)
        (relabel-passed LinkError.not_veth (get_veth_peer_ifindex nl l.name) s p known) refl rest
  veth_or_skip-IsRight false intf l at s v m shown k h =
      let same : no_if ≡ v = cc in
      let skipped : false ≡ v.found = ap (λ (z : CniBridgeIf). z.found) same in λ found. cc

  veth-IsRight :
      (intf : Interface) (s : S) (v : CniBridgeIf)
      → Memᴰ intf listed
      → (validate_cni_veth_interface nl intf br c s).0 ≡ ok v
      → IsRight nl listed br c v
  unfolding validate_cni_veth_interface
  veth-IsRight intf s v m h =
      let (l, e, rest) = >>=-eq_ok (validate_interface nl intf false) _ s v h in
      let (at, shown) = validate_interface-shown nl intf false s l e in
      veth_or_skip-IsRight (is_veth l.kind) intf l at _ v m shown refl rest

  find_veth-IsRight :
      (br_name cont_name : Text) (interfaces : List Interface) (last : CniBridgeIf) (s : S)
      (v : CniBridgeIf)
      → ((intf : Interface) → Memᴰ intf interfaces → Memᴰ intf listed)
      → IsRight nl listed br c last
      → (find_veth nl br_name cont_name br c last interfaces s).0 ≡ ok v
      → IsRight nl listed br c v
  unfolding find_veth
  find_veth-IsRight br_name cont_name [] last s v sub right h =
      let same : last ≡ v = cc in subst (IsRight nl listed br c) same right
  find_veth-IsRight br_name cont_name (intf ∷ interfaces) last s v sub right h =
      let sub' : (i : Interface) → Memᴰ i interfaces → Memᴰ i listed = λ i m. sub i (Memᴰ.tail m) in
      elim (Bool-cases (text_eq br_name intf.name || text_eq cont_name intf.name)) [
        | inl e ↦ find_veth-IsRight br_name cont_name interfaces last s v sub' right (rw e at h)
        | inr e ↦
            let (w, shown, rest) =
              >>=-eq_ok (validate_cni_veth_interface nl intf br c) _ s v (rw e at h) in
            let right' = veth-IsRight intf s w (sub intf (Memᴰ.head refl)) shown in
            elim (Bool-cases w.found) [
              | inl f ↦
                  let rest' = rw f at rest in
                  let same : w ≡ v = cc in subst (IsRight nl listed br c) same right'
              | inr f ↦
                  find_veth-IsRight br_name cont_name interfaces w _ v sub' right' (rw f at rest)
            ]
      ]

-- What CHECK has found under the name of the bridge's interface and of the container's.
pub record AreJoined {S : Type 0} (host cont : Netlink S) (br_name cont_name : Text)
    (interfaces : List Interface) (t : CniBridgeIf × CniBridgeIf × CniBridgeIf) : Type 0 where
  pub is_bridge : IsShown host bridge br_name t.0
  pub is_veth : IsVeth cont cont_name t.1
  pub is_port : IsPort host interfaces t.0 t.1 t.2

found-AreJoined :
    {S : Type 0} (host cont : Netlink S) (br_name cont_name : Text) (interfaces : List Interface)
    (t t' : CniBridgeIf × CniBridgeIf × CniBridgeIf) (s : S)
    → IsShown host bridge br_name t.0
    → IsVeth cont cont_name t.1
    → IsRight host interfaces t.0 t.1 t.2
    → ((check_that t.0.found LinkError.not_found
          >> (check_that t.1.found LinkError.not_found
              >> (check_that t.2.found LinkError.not_found >> pure t)))
        s).0
      ≡ ok t'
    → AreJoined host cont br_name cont_name interfaces t'
found-AreJoined host cont br_name cont_name interfaces t t' s is_br is_cont right h =
    let (_, e6, h6) = >>=-eq_ok (check_that t.0.found LinkError.not_found) _ s t' h in
    let (_, e7, h7) = >>=-eq_ok (check_that t.1.found LinkError.not_found) _ _ t' h6 in
    let (_, e8, h8) = >>=-eq_ok (check_that t.2.found LinkError.not_found) _ _ t' h7 in
    let joined : AreJoined host cont br_name cont_name interfaces t = record {
      is_bridge = is_br;
      is_veth = is_cont;
      is_port = right (check_that-passed t.2.found _ _ e8);
    } in
    let same : t ≡ t' = cc in subst (AreJoined host cont br_name cont_name interfaces) same joined

module _ {S : Type 0} (calls : Calls S) (checks : CheckCalls S) (host cont : Netlink S) where
  -- A check of the interfaces that succeeds has been shown a link of type bridge on the host, under
  -- the name of the configuration, a link of type veth in the container, under the name of its
  -- interface, and one of type veth on the host, under a name of the list, that is the peer of the
  -- container's, as that is its peer, and whose master is that bridge.
  pub check_interfaces-IsConnected :
      (n : NetConf) (args : CmdArgs) (interfaces : List Interface) (s : S) (br c v : CniBridgeIf)
      → (check_interfaces calls checks host cont n args interfaces s).0 ≡ ok (br, c, v)
      → AreJoined host cont n.br_name args.if_name interfaces (br, c, v)
  unfolding check_interfaces
  check_interfaces-IsConnected n args interfaces s br c v h =
      let known = known_interfaces n args interfaces (no_interface, no_interface) in
      let (br', e1, h1) = >>=-eq_ok (validate_cni_br_interface host known.0 n) _ s (br, c, v) h in
      let (u2, e2, h2) =
        >>=-eq_ok (check_that (text_eq args.netns known.1.sandbox) _) _ _ (br, c, v) h1 in
      let (u3, e3, h3) = >>=-eq_ok cont.enter _ _ (br, c, v) h2 in
      let (c', e4, h4) =
        >>=-eq_ok (validate_cni_container_interface cont known.1) _ _ (br, c, v) h3 in
      let (v', e5, h5) =
        >>=-eq_ok (find_veth host known.0.name known.1.name br' c' no_if interfaces) _ _ (br, c, v)
          h4 in
      let is_br : IsShown host bridge n.br_name br' =
        subst (λ name. IsShown host bridge name br') (known_br n args interfaces host s br' e1)
          (br-IsShown host known.0 n s br' e1) in
      let is_cont : IsVeth cont args.if_name c' =
        subst (λ name. IsVeth cont name c') (known_cont n args interfaces cont _ c' e4)
          (container-IsVeth cont known.1 _ c' e4) in
      found-AreJoined host cont n.br_name args.if_name interfaces (br', c', v') (br, c, v) _ is_br
        is_cont
        (find_veth-IsRight host br' c' interfaces known.0.name known.1.name interfaces no_if _ v'
          (λ i m. m) (λ found. cc) e5)
        h5
