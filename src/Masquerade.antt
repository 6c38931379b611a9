-- ===== src/Masquerade.antt =====
-- pkg/ip/ipmasq_linux.go and ipforward_linux.go: masquerading of a network, and forwarding.
--
-- The handles of go-iptables, the text of networks and addresses and the files of /proc/sys are
-- parameters.
use plugins.Prelude.{
  List, [], ◌∷◌, Bool, true, false, Option, none, some, Result, ok, err, Text, text, text_eq,
  trim_space, any, if◌then◌else◌,
}
use plugins.Net.{Ip, IpNet, to4, is_nil}
use plugins.Iptables.{Act, IptError, Handle, is_not_exist, pure, fail, catch, ◌>>=◌, ◌>>◌}

abbrev pub nat : Text
nat = text "nat"

abbrev comment_args : Text → List Text
comment_args comment = text "-m" ∷ text "comment" ∷ text "--comment" ∷ comment ∷ []

abbrev pub multicast_net : IpNet → Text
multicast_net ipn = if is_nil (to4 ipn.ip) then text "ff00::/8" else text "224.0.0.0/4"

-- an error for what does not exist is none
abbrev pub unless_missing : {S : Type 0} → Result IptError (Unit {0}) → Act S (Unit {0})
unless_missing (ok u) = pure u
unless_missing (err e) = if is_not_exist e then pure tt else fail e

module _ {S : Type 0} (ipt : Handle S) (append_unique : Text → Text → List Text → Act S (Unit {0}))
    (net_text : IpNet → Text) (ip_text : Ip → Text) where
  abbrev pub make_chain : Text → List Text → Act S (Unit {0})
  make_chain chain chains =
      if any (λ ch. text_eq ch chain) chains then pure tt else ipt.new_chain nat chain

  -- `SetupIPMasq` with the handle of the network's family
  unfoldable pub setup_ip_masq : IpNet → Text → Text → Act S (Unit {0})
  setup_ip_masq ipn chain comment =
      (ipt.list_chains nat >>= make_chain chain)
      >> (append_unique nat chain
            (text "-d" ∷ net_text ipn ∷ text "-j" ∷ text "ACCEPT" ∷ comment_args comment)
          >> (append_unique nat chain (
                text "!"
                ∷ text "-d"
                ∷ multicast_net ipn
                ∷ text "-j"
                ∷ text "MASQUERADE"
                ∷ comment_args comment)
              >> append_unique nat (text "POSTROUTING")
                  (text "-s" ∷ ip_text ipn.ip ∷ text "-j" ∷ chain ∷ comment_args comment)))

  -- `TeardownIPMasq`
  unfoldable pub teardown_ip_masq : IpNet → Text → Text → Act S (Unit {0})
  teardown_ip_masq ipn chain comment =
      catch
        (ipt.delete nat (text "POSTROUTING")
          (text "-s" ∷ ip_text ipn.ip ∷ text "-j" ∷ chain ∷ comment_args comment))
        unless_missing
      >> (catch
            (ipt.delete nat (text "POSTROUTING")
              (text "-s" ∷ net_text ipn ∷ text "-j" ∷ chain ∷ comment_args comment))
            unless_missing
          >> (catch (ipt.clear_chain nat chain) unless_missing
              >> catch (ipt.delete_chain nat chain) unless_missing))

-- The files of /proc/sys, with the errors of their calls.
pub record SysFiles (S : Type 0) : Type 0 where
  pub read_file : Text → S → Option Text
  pub write_file : Text → Text → Act S (Unit {0})

module _ {S : Type 0} (files : SysFiles S) where
  unfoldable pub echo1 : Text → Act S (Unit {0})
  echo1 f s = elim (files.read_file f s) [
    | none ↦ files.write_file f (text "1") s
    | some content ↦
        if text_eq (trim_space content) (text "1")
        then (ok tt, s)
        else files.write_file f (text "1") s
  ]

  unfoldable pub enable_ip4_forward : Act S (Unit {0})
  enable_ip4_forward = echo1 (text "/proc/sys/net/ipv4/ip_forward")

  unfoldable pub enable_ip6_forward : Act S (Unit {0})
  enable_ip6_forward = echo1 (text "/proc/sys/net/ipv6/conf/all/forwarding")

  -- the loop of `EnableForward`, with the families that are done
  unfoldable pub enable_each : Bool → Bool → List IpNet → Act S (Unit {0})
  enable_each v4 v6 [] = pure tt
  enable_each v4 v6 (n ∷ ips) = elim (is_nil (to4 n.ip)) [
    | false ↦ if v4 then enable_each v4 v6 ips else enable_ip4_forward >> enable_each true v6 ips
    | true ↦ if v6 then enable_each v4 v6 ips else enable_ip6_forward >> enable_each v4 true ips
  ]

  unfoldable pub enable_forward : List IpNet → Act S (Unit {0})
  enable_forward ips = enable_each false false ips
