-- ===== src/Bridge/Frame.antt =====
-- What making the bridge and a veth pair keeps, where netlink and the files keep it.
use plugins.Prelude.{ℕ, zero, suc, List, [], Bool, ◌&&◌, not, Option, Result, ok, err, Text}
use plugins.Prelude.Int.{ℤ, pos_part}
use plugins.Prelude.Effects.{Act, pure, fail}
use plugins.Prelude.Keeps.{
  Keeps, Keeps-lift, Keeps-if, Keeps-relabel, Keeps-catch, Keeps-catch_elim, Keeps-bind,
  keeps_rules,
}
use plugins.Sysctl.{get_sysctl, set_sysctl, sysctl}
use plugins.Links.{LinkError, Link, Netlink, Kind, bridge, unless_exists, own_routes}
use plugins.Links.Veth.{
  is_set, is_exist, host_end_up, random_veth_name, make_veth_pair, peer_exists, make_veth_in,
  make_veth, setup_veth_with_name, setup_veth,
}
use plugins.Bridge.{NetConf}
use plugins.Bridge.Setup.{
  is_zero, bridge_only, ensure_bridge, bridge_by_name, setup_veth_pair, setup_bridge,
}

-- Netlink and the files keep a property of the state.
pub record NetlinkKeeps {S : Type 0} (P : S → Type 0) (nl : Netlink S) : Type 0 where
  pub enter : Keeps P nl.enter
  pub link_by_name : (t : Text) → Keeps P (nl.link_by_name t)
  pub add_veth : (n p : Text) (mtu : ℤ) (m : Option Text) → Keeps P (nl.add_veth n p mtu m)
  pub add_bridge : (n : Text) (mtu : ℤ) (v : Bool) → Keeps P (nl.add_bridge n mtu v)
  pub link_del : (t : Text) → Keeps P (nl.link_del t)
  pub link_set_up : (l : Link) → Keeps P (nl.link_set_up l)
  pub set_promisc_on : (t : Text) → Keeps P (nl.set_promisc_on t)
  pub set_master : (l m : Link) → Keeps P (nl.set_master l m)
  pub set_hairpin : (l : Link) (b : Bool) → Keeps P (nl.set_hairpin l b)
  pub bridge_vlan_add : (l : Link) (v : ℕ) → Keeps P (nl.bridge_vlan_add l v)
  pub read_file : (t : Text) → Keeps P (nl.files.read_file t)
  pub write_file : (t u : Text) → Keeps P (nl.files.write_file t u)

module _ {S : Type 0} {P : S → Type 0} (entropy : Act LinkError S (List ℕ))
    (parse_mac : Text → Option Text) (cont host : Netlink S) (ke : Keeps P entropy)
    (kc : NetlinkKeeps P cont) (kh : NetlinkKeeps P host) where
  random_veth_name-Keeps : Keeps P (random_veth_name entropy parse_mac cont host)
  unfolding random_veth_name
  random_veth_name-Keeps = search (keeps_rules, ke)

  make_veth_pair-Keeps :
      (name peer : Text) (mtu : ℤ) (mac : Text)
      → Keeps P (make_veth_pair entropy parse_mac cont host name peer mtu mac)
  unfolding make_veth_pair
  make_veth_pair-Keeps name peer mtu mac =
      search (keeps_rules, kc.add_veth, kc.link_by_name, kc.link_del) depth 12

  peer_exists-Keeps : (name : Text) → Keeps P (peer_exists entropy parse_mac cont host name)
  unfolding peer_exists
  peer_exists-Keeps name = search (keeps_rules, kc.link_by_name)

  own_routes-Keeps : (name : Text) → Keeps P (own_routes host name)
  unfolding sysctl set_sysctl get_sysctl
  own_routes-Keeps name = search (keeps_rules, kh.read_file, kh.write_file) depth 8

  make_veth_in-Keeps :
      (n : ℕ) (name peer : Text) (mtu : ℤ) (mac : Text)
      → Keeps P (make_veth_in entropy parse_mac cont host n name peer mtu mac)
  unfolding make_veth_in
  make_veth_in-Keeps zero name peer mtu mac = search keeps_rules
  make_veth_in-Keeps (suc n) name peer mtu mac =
      Keeps-bind _ _ (Keeps-if (is_set peer) _ _ (Keeps-lift (ok peer)) random_veth_name-Keeps) λ p.
        Keeps-catch_elim _ _ _ (make_veth_pair-Keeps name p mtu mac) (λ l. Keeps-lift _)
          λ e.
            Keeps-if (is_exist e) _ _
              (Keeps-bind _ _ (peer_exists-Keeps p) λ there.
                Keeps-if (there && not (is_set peer)) _ _ (make_veth_in-Keeps n name peer mtu mac)
                  (Keeps-lift _))
              (Keeps-lift _)

  host_end_up-Keeps : (name : Text) → Keeps P (host_end_up entropy parse_mac cont host name)
  host_end_up-Keeps name = Keeps-bind _ _ kh.enter λ u.
      Keeps-bind _ _ (Keeps-relabel _ _ (kh.link_by_name name)) λ l.
        Keeps-bind _ _ (Keeps-relabel _ _ (kh.link_set_up l))
          λ v. Keeps-bind _ _ (own_routes-Keeps name) λ w. Keeps-lift (ok l)

  setup_veth-Keeps :
      (name : Text) (mtu : ℤ) (mac : Text)
      → Keeps P (setup_veth entropy parse_mac cont host name mtu mac)
  unfolding setup_veth setup_veth_with_name make_veth
  setup_veth-Keeps name mtu mac = Keeps-bind _ _ (make_veth_in-Keeps 10 name [] mtu mac) λ made.
      Keeps-bind _ _ (Keeps-relabel _ _ (kc.link_set_up made.1))
        λ u. Keeps-bind _ _ (host_end_up-Keeps made.0) λ l. Keeps-lift _

  pub setup_veth_pair-Keeps :
      (path : Text) (br : Link) (if_name : Text) (mtu : ℤ) (hairpin : Bool) (vlan : ℤ) (mac : Text)
      → Keeps P (setup_veth_pair entropy parse_mac host cont path br if_name mtu hairpin vlan mac)
  unfolding setup_veth_pair
  setup_veth_pair-Keeps path br if_name mtu hairpin vlan mac = Keeps-bind _ _ kc.enter λ u.
      Keeps-bind _ _ (setup_veth-Keeps if_name mtu mac) λ ends.
        Keeps-bind _ _ (kh.link_by_name ends.0.name) λ l. Keeps-bind _ _ (kh.set_master l br) λ v.
          Keeps-bind _ _ (kh.set_hairpin l hairpin) λ w.
            Keeps-bind _ _
              (Keeps-if (is_zero vlan) _ _ (Keeps-lift (ok tt))
                (kh.bridge_vlan_add l (pos_part vlan)))
              λ x. Keeps-lift _

  bridge_only-Keeps : (l : Link) → Keeps P (bridge_only host l)
  bridge_only-Keeps l = go l.kind
    where
      go :
          (k : Kind)
          → Keeps {E = LinkError} P (elim k [ bridge ↦ pure l | _ ↦ fail LinkError.not_a_bridge ])
      go bridge = Keeps-lift _
      go _ = Keeps-lift _

  unless_exists-Keeps : (r : Result LinkError (Unit {0})) → Keeps P (unless_exists {S = S} r)
  unless_exists-Keeps (ok u) = Keeps-lift _
  unless_exists-Keeps (err LinkError.exists) = Keeps-lift _
  unless_exists-Keeps (err _) = Keeps-lift _

  pub bridge_by_name-Keeps : (name : Text) → Keeps P (bridge_by_name host name)
  unfolding bridge_by_name
  bridge_by_name-Keeps name =
      Keeps-bind _ _ (Keeps-relabel _ _ (kh.link_by_name name)) bridge_only-Keeps

  ensure_bridge-Keeps :
      (name : Text) (mtu : ℤ) (promisc vlan : Bool)
      → Keeps P (ensure_bridge host name mtu promisc vlan)
  unfolding ensure_bridge
  ensure_bridge-Keeps name mtu promisc vlan =
      Keeps-bind _ _ (Keeps-catch _ _ (kh.add_bridge name mtu vlan) unless_exists-Keeps) λ u.
        Keeps-bind _ _ (Keeps-if promisc _ _ (kh.set_promisc_on name) (Keeps-lift (ok tt))) λ v.
          Keeps-bind _ _ (bridge_by_name-Keeps name) λ br.
            Keeps-bind _ _ (own_routes-Keeps name)
              λ w. Keeps-bind _ _ (kh.link_set_up br) λ x. Keeps-lift (ok br)

  pub setup_bridge-Keeps : (n : NetConf) → Keeps P (setup_bridge host n)
  unfolding setup_bridge
  setup_bridge-Keeps n = Keeps-bind _ _ (ensure_bridge-Keeps _ _ _ _) λ br. Keeps-lift _
