-- ===== src/Ptp/Release.antt =====
-- When a failed ADD of plugins/main/ptp/ptp.go releases the address.
use plugins.Prelude.{
  ◌≡◌, refl, List, map, false, not, Option, none, some, Result, ok, err, Text, length, ◌==◌,
}
use plugins.Prelude.Effects.{Act, lift, check_that, continue, relabel, ◌>>=◌}
use plugins.Prelude.Keeps.{RestoresOnError, RestoresOnError-restore}
use plugins.Net.{IpNet}
use plugins.Masquerade.{enable_forward}
use plugins.Links.{LinkError, Netlink, IpConfig, AddResult}
use plugins.Bridge.Layer3.{Calls, CmdArgs}
use plugins.Ptp.{NetConf, released, converted, connect, add_from, cmd_add}

abbrev pub addresses : AddResult → List IpNet
addresses r = map (λ (ipc : IpConfig). ipc.address) r.ips

-- An error of an action leaves a property, whatever was before.
record BringsAbout {S A : Type 0} (P : S → Type 0) (m : Act LinkError S A) : Type 0 where
  at : (s : S) (e : LinkError) → (m s).0 ≡ err e → P (m s).1

BringsAbout-bind :
    {S A B : Type 0} (P : S → Type 0) (m : Act LinkError S A) (f : A → Act LinkError S B)
    → BringsAbout P m
    → ((a : A) (s : S) → (m s).0 ≡ ok a → BringsAbout P (f a))
    → BringsAbout P (m >>= f)
BringsAbout-bind {S} {A} P m f hm hf = record { at = λ s. go (m s) (hm.at s) (λ a. hf a s) }
  where
    go :
        (c : Result LinkError A × S)
        → ((e : LinkError) → c.0 ≡ err e → P c.1)
        → ((a : A) → c.0 ≡ ok a → BringsAbout P (f a))
        → (e : LinkError) → (continue c.0 f c.1).0 ≡ err e
        → P (continue c.0 f c.1).1
    go (ok a, s') h k e eq = (k a refl).at s' e eq
    go (err e', s') h k e eq = h e' refl

module _ {S : Type 0} (calls : Calls S) (host cont : Netlink S) where
  released-some :
      (conf : NetConf) (args : CmdArgs) (raw : Text) (r : AddResult) (s : S)
      → (released calls host cont conf args (lift (converted calls host cont raw)) s).0 ≡ ok r
      → calls.new_result raw ≡ some r
  released-some conf args raw r s h = go (calls.new_result raw) h
    where
      go :
          (o : Option AddResult)
          → (released calls host cont conf args
              (lift (elim o [ none ↦ err LinkError.bad_config | some r ↦ ok r ]))
              s).0
            ≡ ok r
          → o ≡ some r
      go none k = cc
      go (some r') k = cc

no_err-BringsAbout :
    {S A : Type 0} {P : S → Type 0} (m : Act LinkError S A)
    → ((s : S) → (a : A) × ((m s).0 ≡ ok a))
    → BringsAbout P m
no_err-BringsAbout m h = record { at = λ s e eq. let (a, k) = h s in cc }

module _ {S : Type 0} (P : S → Type 0) (calls : Calls S) (host cont : Netlink S)
    (kd : (type config : Text) (s : S) → P (calls.exec_del type config s).1) where
  released-err :
      {A : Type 0} (conf : NetConf) (args : CmdArgs) (m : Act LinkError S A) (s : S) (e : LinkError)
      → (released calls host cont conf args m s).0 ≡ err e
      → P (released calls host cont conf args m s).1
  released-err {A} conf args m s = go (m s)
    where
      go :
          (c : Result LinkError A × S) (e : LinkError)
          → (released calls host cont conf args (λ s. c) s).0 ≡ err e
          → P (released calls host cont conf args (λ s. c) s).1
      go (ok a, s') e eq = cc
      go (err e', s') e eq = kd conf.ipam_type args.stdin s'

  released-BringsAbout :
      {A : Type 0} (conf : NetConf) (args : CmdArgs) (m : Act LinkError S A)
      → BringsAbout P (released calls host cont conf args m)
  released-BringsAbout conf args m = record { at = released-err conf args m }

  module _ (kf : (nets : List IpNet) (s : S) → (enable_forward calls.files nets s).0 ≡ ok tt)
      (ki : (raw : Text) (r : AddResult)
        → calls.new_result raw ≡ some r
        → (length r.ips == 0) ≡ false)
      (kp : (r : AddResult) (s : S) → (calls.print_result r s).0 ≡ ok tt) where
    add_from-BringsAbout :
        (conf : NetConf) (args : CmdArgs) (raw : Text)
        → BringsAbout P (add_from calls host cont conf args raw)
    unfolding add_from
    add_from-BringsAbout conf args raw =
        BringsAbout-bind P _ _
          (released-BringsAbout conf args (lift (converted calls host cont raw)))
          λ r s h.
            BringsAbout-bind P _ _
              (no_err-BringsAbout (check_that (not (length r.ips == 0)) LinkError.missing_ip)
                (λ t. (tt, rw (ki raw r (released-some calls host cont conf args raw r s h)) refl)))
              λ u s1 k1.
                BringsAbout-bind P _ _
                  (no_err-BringsAbout
                    (relabel LinkError.failed (enable_forward calls.files (addresses r)))
                    (λ t. (tt, rw (relabel, kf (addresses r) t) refl)))
                  λ v s2 k2.
                    BringsAbout-bind P _ _
                      (released-BringsAbout conf args (connect calls host cont conf args r))
                      λ res s3 k3. no_err-BringsAbout (calls.print_result res) (λ t. (tt, kp res t))

    -- A failed ADD leaves no address reserved by the IPAM plugin, if there was none before:
    -- a property that a failed call of the plugin keeps, and that its DEL brings about, holds again
    -- after an error of ADD, where forwarding can be enabled, the plugin gives an address, and the
    -- result can be printed.
    pub cmd_add-BringsAbout :
        ((type config : Text) → RestoresOnError P (calls.exec_add type config))
        → (conf : NetConf) (args : CmdArgs) → RestoresOnError P (cmd_add calls host cont conf args)
    unfolding cmd_add
    cmd_add-BringsAbout ka conf args =
        RestoresOnError-restore _ _ (ka conf.ipam_type args.stdin)
          λ raw. (add_from-BringsAbout conf args raw).at
