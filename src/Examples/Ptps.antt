-- ===== src/Examples/Ptps.antt =====
-- A failed ADD of ptp, over the netlink of the bridge's examples.
use plugins.Prelude.{List, [], ◌∷◌, ◌≡◌, refl, Bool, true, false, none, ok, text, if◌then◌else◌}
use plugins.Prelude.Int.{pos}
use plugins.Prelude.Keeps.{RestoresOnError}
use plugins.Net.{IpNet, to4, is_nil}
use plugins.HostLocal.Dns.{empty_dns}
use plugins.Iptables.{Act, ◌>>◌}
use plugins.Masquerade.{echo1, enable_ip4_forward, enable_ip6_forward, enable_each, enable_forward}
use plugins.Links.{AddResult}
use plugins.Ptp.{NetConf, cmd_add}
use plugins.Ptp.Release.{cmd_add-BringsAbout}
use plugins.Examples.Bridges.{World, netlink, calls, args, IsFree, both}

abbrev conf : NetConf
conf = record {
  name = text "p2p";
  ipam_type = text "host-local";
  ip_masq = false;
  mtu = pos 1500;
  dns = record { nameservers = none; domain = []; search_list = none; options = none };
}

abbrev given : AddResult
given = record { interfaces = []; ips = both; routes = []; dns = empty_dns }

enables :
    (v4 v6 : Bool) (nets : List IpNet) (s : World)
    → (enable_each calls.files v4 v6 nets s).0 ≡ ok tt
unfolding enable_each enable_ip4_forward enable_ip6_forward echo1
enables v4 v6 [] s = refl
enables v4 v6 (n ∷ nets) s = go (is_nil (to4 n.ip)) v4 v6 (λ a b. enables a b nets s)
  where
    go :
        (other a b : Bool)
        → ((a b : Bool) → (enable_each calls.files a b nets s).0 ≡ ok tt)
        → (let m : Act World (Unit {0}) = elim other [
          | false ↦
              if a
              then enable_each calls.files a b nets
              else enable_ip4_forward calls.files >> enable_each calls.files true b nets
          | true ↦
              if b
              then enable_each calls.files a b nets
              else enable_ip6_forward calls.files >> enable_each calls.files a true nets
        ] in
            (m s).0 ≡ ok tt)
    go false true b h = h true b
    go false false b h = h true b
    go true a true h = h a true
    go true a false h = h a true

cmd_add-BringsAbout_example : RestoresOnError IsFree (cmd_add calls netlink netlink conf args)
unfolding enable_forward
cmd_add-BringsAbout_example =
    cmd_add-BringsAbout IsFree calls netlink netlink (λ type config s. refl)
      (λ nets s. enables false false nets s) (λ raw r h. let e : given ≡ r = cc in rw (← e) refl)
      (λ r s. refl) (λ type config. record { at = λ s h e eq. cc }) conf args
