-- ===== src/Bridge/Commands/Release.antt =====
-- What a failed ADD of plugins/main/bridge/bridge.go leaves.
use plugins.Prelude.{◌≡◌, ◌&&◌, not, Result, ok, err, Text}
use plugins.Prelude.Effects.{Act, ◌>>=◌}
use plugins.Prelude.Keeps.{
  RestoresOnError, RestoresOnError-Keeps, RestoresOnError-if, RestoresOnError-bind,
  RestoresOnError-restore, Keeps, Keeps-check, Keeps-lift, Keeps-bind,
}
use plugins.Links.{LinkError, Link, Netlink, AddResult}
use plugins.Bridge.{NetConf, load_net_conf}
use plugins.Bridge.Frame.{
  NetlinkKeeps, setup_veth_pair-Keeps, setup_bridge-Keeps, bridge_by_name-Keeps,
}
use plugins.Bridge.Layer3.{Calls, CmdArgs, is_layer3, as_gateway, add_layer3}
use plugins.Bridge.Commands.{
  set_bridge_mac, finish, released, add_addresses, port_result, add_result, cmd_add,
}

module _ {S : Type 0} {P : S → Type 0} (calls : Calls S) (host cont : Netlink S)
    (ke : Keeps P calls.entropy) (kc : NetlinkKeeps P cont) (kh : NetlinkKeeps P host)
    (ko : (netns : Text) → Keeps P (calls.open_ns netns))
    (ka : (type config : Text) → RestoresOnError P (calls.exec_add type config))
    (kd : (type config : Text) (s : S) → P (calls.exec_del type config s).1) where
  released-err :
      {A : Type 0} (n : NetConf) (args : CmdArgs) (m : Act LinkError S A) (s : S) (e : LinkError)
      → (released calls host cont n args m s).0 ≡ err e
      → P (released calls host cont n args m s).1
  released-err {A} n args m s = go (m s)
    where
      go :
          (c : Result LinkError A × S) (e : LinkError)
          → (released calls host cont n args (λ s. c) s).0 ≡ err e
          → P (released calls host cont n args (λ s. c) s).1
      go (ok a, s') e eq = cc
      go (err e', s') e eq = kd n.ipam_type args.stdin s'

  finish-Keeps : (n : NetConf) (r : AddResult) → Keeps P (finish calls host cont n r)
  unfolding finish
  finish-Keeps n r =
      Keeps-bind _ _
        (bridge_by_name-Keeps calls.entropy calls.parse_mac cont host ke kc kh n.br_name)
        λ br.
          Keeps-bind _ _ (Keeps-check (not calls.debug_error) LinkError.requested)
            λ u. Keeps-lift (ok (record (set_bridge_mac br.hardware_addr r) { dns = n.dns }))

  add_addresses-err :
      (n : NetConf) (args : CmdArgs) (br : Link) (name : Text) (result : AddResult) (raw : Text)
      (s : S) (e : LinkError)
      → (add_addresses calls host cont n args br name result raw s).0 ≡ err e
      → P (add_addresses calls host cont n args br name result raw s).1
  unfolding add_addresses
  add_addresses-err n args br name result raw s e =
      released-err n args
        (add_layer3 calls host cont n args br name result raw >>= λ res.
          finish calls host cont n res)
        s e

  add_result-RestoresOnError :
      (n : NetConf) (args : CmdArgs) → RestoresOnError P (add_result calls host cont n args)
  unfolding add_result
  add_result-RestoresOnError n args =
      RestoresOnError-bind _ _
        (Keeps-check (not (n.hairpin_mode && n.promisc_mode)) LinkError.mode_conflict)
        λ u.
          RestoresOnError-bind _ _
            (setup_bridge-Keeps calls.entropy calls.parse_mac cont host ke kc kh n)
            λ br. RestoresOnError-bind _ _ (ko args.netns) λ v.
              RestoresOnError-bind _ _
                (setup_veth_pair-Keeps calls.entropy calls.parse_mac cont host ke kc kh args.netns
                  br.0 args.if_name n.mtu n.hairpin_mode n.vlan n.mac)
                λ ends.
                  RestoresOnError-if (is_layer3 n) _ _
                    (RestoresOnError-restore _ _ (ka n.ipam_type args.stdin) λ raw.
                      add_addresses-err n args br.0 ends.0.name (port_result n br.1 ends) raw)
                    (RestoresOnError-Keeps _ (finish-Keeps n (port_result n br.1 ends)))

  -- A failed ADD leaves no address reserved by the IPAM plugin, if there was none before: a property
  -- that netlink, the files and a failed call of the plugin keep, and that its DEL brings about, holds
  -- again after every error of ADD, where printing the result does not fail.
  pub cmd_add-RestoresOnError :
      ((r : AddResult) (s : S) → (calls.print_result r s).0 ≡ ok tt)
      → (args : CmdArgs) → RestoresOnError P (cmd_add calls host cont args)
  unfolding cmd_add
  cmd_add-RestoresOnError kp args =
      RestoresOnError-bind _ _
        (Keeps-lift (load_net_conf calls.decode calls.load_args args.stdin args.args))
        λ n.
          RestoresOnError-restore _ _ (add_result-RestoresOnError (as_gateway n) args)
            λ r s e eq. cc (kp r s)
