-- ===== src/Ptp/Commands.antt =====
-- The commands DEL and CHECK of plugins/main/ptp/ptp.go.
use plugins.Prelude.{
  List, [], ◌∷◌, Bool, ◌&&◌, not, Result, ok, err, Text, text_eq, length, ◌==◌, if◌then◌else◌,
}
use plugins.Prelude.Effects.{Act, pure, fail, lift, catch, check_that, relabel, ◌>>=◌, ◌>>◌}
use plugins.Net.{IpNet, to4, is_nil}
use plugins.Masquerade.{teardown_ip_masq}
use plugins.Links.{LinkError, Netlink, Interface}
use plugins.Links.Veth.{del_link_by_name_addr}
use plugins.Links.Expected.{validate_expected_interface_ips, validate_expected_route}
use plugins.Bridge.Layer3.{Calls, CmdArgs}
use plugins.Bridge.Check.{CheckCalls, is_veth, mac_fits, no_interface, prev_result}
use plugins.Ptp.{NetConf, chain_of, comment_of}

abbrev is_set : Text → Bool
is_set t = not (length t == 0)

module _ {S : Type 0} (calls : Calls S) (checks : CheckCalls S) (host cont : Netlink S) where
  abbrev pub teardown : NetConf → CmdArgs → Text → IpNet → Act LinkError S (Unit {0})
  unfolding teardown_ip_masq to4
  teardown conf args chain ipn =
      relabel LinkError.failed (calls.new_handle (is_nil (to4 ipn.ip))) >>= λ ipt.
      relabel LinkError.failed (
        teardown_ip_masq ipt calls.append_unique calls.net_text calls.ip_text ipn chain
          (comment_of calls host cont conf args))

  -- The loop goes on after an error; the last one counts.
  unfoldable pub teardown_all :
      NetConf
      → CmdArgs
      → Text
      → Result LinkError (Unit {0})
      → List IpNet
      → Act LinkError S (Unit {0})
  unfolding teardown
  teardown_all conf args chain last [] = lift last
  teardown_all conf args chain last (ipn ∷ nets) =
      catch (teardown conf args chain ipn) λ r. teardown_all conf args chain r nets

  abbrev pub del_interface : Text → Act LinkError S (List IpNet)
  unfolding del_link_by_name_addr
  del_interface name =
      catch (del_link_by_name_addr cont name) λ r. elim r [
        | ok nets ↦ pure nets
        | err LinkError.link_not_found ↦ pure []
        | err e ↦ fail e
      ]

  unfoldable pub cmd_del : NetConf → CmdArgs → Act LinkError S (Unit {0})
  unfolding teardown_all
  cmd_del conf args =
      calls.exec_del conf.ipam_type args.stdin
      >> (if length args.netns == 0
          then pure tt
          else (calls.open_ns args.netns
              >> (cont.enter
                  >> (del_interface args.if_name >>= λ nets.
                      if not (length nets == 0) && conf.ip_masq
                      then (chain_of calls host cont conf args >>= λ chain.
                          teardown_all conf args chain (ok tt) nets)
                      else pure tt))))

  -- the last interface of the result that has the name, in the namespace
  unfoldable pub container_interface : CmdArgs → Interface → List Interface → Interface
  container_interface args found [] = found
  container_interface args found (intf ∷ interfaces) =
      container_interface args
        (if text_eq args.if_name intf.name && text_eq args.netns intf.sandbox then intf else found)
        interfaces

  unfoldable pub validate_cni_container_interface : Interface → Act LinkError S (Unit {0})
  validate_cni_container_interface intf =
      check_that (is_set intf.name) LinkError.name_missing
      >> (relabel LinkError.lookup_failed (cont.link_by_name intf.name) >>= λ l.
          check_that (is_set intf.sandbox) LinkError.bad_sandbox
          >> (check_that (is_veth l.kind) LinkError.not_veth
              >> check_that (mac_fits intf l) LinkError.wrong_mac))

  unfoldable pub cmd_check : NetConf → CmdArgs → Act LinkError S (Unit {0})
  unfolding container_interface validate_cni_container_interface validate_expected_interface_ips
      validate_expected_route
  cmd_check conf args =
      calls.open_ns args.netns
      >> (checks.exec_check conf.ipam_type args.stdin
          >> (lift (prev_result calls checks host cont args.stdin) >>= λ r.
              let found = container_interface args no_interface r.interfaces in
              check_that (text_eq args.netns found.sandbox) LinkError.bad_sandbox
              >> (cont.enter
                  >> (validate_cni_container_interface found
                      >> (validate_expected_interface_ips cont calls.net_text checks.addr_equal
                            checks.prefix_of args.if_name r.ips
                          >> validate_expected_route cont calls.net_text checks.addr_equal
                              checks.prefix_of r.routes)))))
