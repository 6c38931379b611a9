-- ===== src/Bridge/Check/Shown.antt =====
-- What CHECK of plugins/main/bridge/bridge.go knows of one interface: the link that netlink shows.
use mathlib.Core.Path.{subst}
use plugins.Prelude.{◌≡◌, refl, Bool, true, false, not, Result, ok, err, Text, if◌then◌else◌, ltb}
use plugins.Prelude.Effects.{Act, check_that, relabel, >>=-eq_ok}
use plugins.Links.{LinkError, Kind, bridge, veth, other, Link, Netlink, Interface}
use plugins.Links.Veth.{get_veth_peer_ifindex}
use plugins.Bridge.{NetConf}
use plugins.Bridge.Check.{
  CniBridgeIf, is_bridge, is_veth, mac_fits, veth_if, is_set, validate_interface,
  validate_cni_br_interface, validate_cni_container_interface,
}

-- Netlink shows a link of the type under the name, and what is kept of it is the link's.
pub record IsShown {S : Type 0} (nl : Netlink S) (k : Kind) (name : Text) (x : CniBridgeIf)
    : Type 0 where
  pub at : S
  pub link : Link
  pub shown : (nl.link_by_name name at).0 ≡ ok link
  pub kind : link.kind ≡ k
  pub named : x.name ≡ link.name
  pub indexed : x.if_index ≡ link.index

-- A veth that is shown, with the index of its peer.
pub record IsVeth {S : Type 0} (nl : Netlink S) (name : Text) (x : CniBridgeIf) : Type 0 where
  pub shown : IsShown nl veth name x
  pub at : S
  pub found : Link
  pub peer : (get_veth_peer_ifindex nl shown.link.name at).0 ≡ ok (found, x.peer_index)

pub check_that-passed :
    {E S : Type 0} (b : Bool) (e : E) (s : S) → (check_that b e s).0 ≡ ok tt → b ≡ true
check_that-passed true e s h = refl
check_that-passed false e s h = cc

pub relabel-passed :
    {E F S A : Type 0} (e : E) (m : Act F S A) (s : S) (a : A)
    → (relabel e m s).0 ≡ ok a
    → (m s).0 ≡ ok a
relabel-passed {E} {F} {S} {A} e m s a = go (m s).0
  where
    go :
        (r : Result F A)
        → elim r as (λ _. Result E A) [ ok a ↦ ok a | err _ ↦ err e ] ≡ ok a
        → r ≡ ok a
    go (ok b) h = cc
    go (err x) h = cc

is_bridge-eq : (k : Kind) → is_bridge k ≡ true → k ≡ bridge
is_bridge-eq bridge h = refl
is_bridge-eq veth h = cc
is_bridge-eq other h = cc

pub is_veth-eq : (k : Kind) → is_veth k ≡ true → k ≡ veth
is_veth-eq veth h = refl
is_veth-eq bridge h = cc
is_veth-eq other h = cc

module _ {S : Type 0} (nl : Netlink S) where
  pub validate_interface-shown :
      (intf : Interface) (in_sb : Bool) (s : S) (l : Link)
      → (validate_interface nl intf in_sb s).0 ≡ ok l
      → (at : S) × ((nl.link_by_name intf.name at).0 ≡ ok l)
  unfolding validate_interface
  validate_interface-shown intf in_sb s l h =
      let (u, e1, h1) = >>=-eq_ok (check_that (is_set intf.name) _) _ s l h in
      let (l', e2, h2) =
        >>=-eq_ok (relabel LinkError.lookup_failed (nl.link_by_name intf.name)) _ _ l h1 in
      let (u', e3, h3) =
        >>=-eq_ok
          (check_that (if in_sb then is_set intf.sandbox else not (is_set intf.sandbox))
            LinkError.bad_sandbox)
          _ _ l h2 in
      let same : l' ≡ l = cc in
      (_, relabel-passed LinkError.lookup_failed (nl.link_by_name intf.name) _ l (rw same at e2))

  pub validate_interface-named :
      (intf : Interface) (in_sb : Bool) (s : S) (l : Link)
      → (validate_interface nl intf in_sb s).0 ≡ ok l
      → is_set intf.name ≡ true
  unfolding validate_interface
  validate_interface-named intf in_sb s l h =
      let (u, e1, h1) = >>=-eq_ok (check_that (is_set intf.name) LinkError.name_missing) _ s l h in
      check_that-passed (is_set intf.name) LinkError.name_missing s e1

  pub br-IsShown :
      (intf : Interface) (n : NetConf) (s : S) (br : CniBridgeIf)
      → (validate_cni_br_interface nl intf n s).0 ≡ ok br
      → IsShown nl bridge intf.name br
  unfolding validate_cni_br_interface
  br-IsShown intf n s br h =
      let (l, e1, h1) = >>=-eq_ok (validate_interface nl intf false) _ s br h in
      let (u, e2, h2) = >>=-eq_ok (check_that (is_bridge l.kind) _) _ _ br h1 in
      let (u', e3, h3) = >>=-eq_ok (check_that (mac_fits intf l) _) _ _ br h2 in
      let (u'', e4, h4) =
        >>=-eq_ok
          (check_that (if n.promisc_mode then ltb 0 l.promisc else not (ltb 0 l.promisc))
            LinkError.wrong_promisc)
          _ _ br h3 in
      let (at, shown) = validate_interface-shown intf false s l e1 in
      let x : CniBridgeIf = record {
        name = l.name;
        if_index = l.index;
        peer_index = 0;
        master_index = l.master_index;
        found = true;
      } in
      let same : x ≡ br = cc in
      let made : IsShown nl bridge intf.name x = record {
        at = at;
        link = l;
        shown = shown;
        kind = is_bridge-eq l.kind (check_that-passed _ _ _ e2);
        named = refl;
        indexed = refl;
      } in
      subst (IsShown nl bridge intf.name) same made

  pub container-IsVeth :
      (intf : Interface) (s : S) (c : CniBridgeIf)
      → (validate_cni_container_interface nl intf s).0 ≡ ok c
      → IsVeth nl intf.name c
  unfolding validate_cni_container_interface
  container-IsVeth intf s c h =
      let (l, e1, h1) = >>=-eq_ok (validate_interface nl intf true) _ s c h in
      let (u, e2, h2) = >>=-eq_ok (check_that (is_veth l.kind) _) _ _ c h1 in
      let (p, e3, h3) =
        >>=-eq_ok (relabel LinkError.not_veth (get_veth_peer_ifindex nl l.name)) _ _ c h2 in
      let (u', e4, h4) = >>=-eq_ok (check_that (mac_fits intf l) _) _ _ c h3 in
      let (at, shown) = validate_interface-shown intf true s l e1 in
      let x : CniBridgeIf = record (veth_if l p.1 true) { master_index = 0 } in
      let same : x ≡ c = cc in
      let made : IsVeth nl intf.name x = record {
        shown = record {
          at = at;
          link = l;
          shown = shown;
          kind = is_veth-eq l.kind (check_that-passed _ _ _ e2);
          named = refl;
          indexed = refl;
        };
        at = _;
        found = p.0;
        peer = relabel-passed LinkError.not_veth (get_veth_peer_ifindex nl l.name) _ p e3;
      } in
      subst (IsVeth nl intf.name) same made
