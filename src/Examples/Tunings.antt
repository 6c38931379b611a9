-- ===== src/Examples/Tunings.antt =====
-- An interface whose attributes are changed and restored, and sysctls.
use plugins.Prelude.{
  ℕ, ap, ◌==◌, All, ◌≡◌, refl, List, [], ◌∷◌, Bool, true, false, Option, none, some, ok, err, Text,
  text, if◌then◌else◌,
}
use plugins.Prelude.Int.{ℤ, pos, negsuc}
use plugins.Prelude.Effects.{each}
use plugins.Tuning.{
  TuningConf, Backup, Link, Kernel, Host, FileOp, kernel_failed, set, get, remove, backup_of,
  sysctl_path, squeeze, has_prefix,
}
use plugins.Tuning.Commands.{
  change_mac_addr, change_promisc, change_mtu, change_allmulti, announce, create_backup,
  restore_attributes, restore_backup, set_attributes, write_sysctl, write_sysctls, tune, cmd_add,
}
use plugins.Tuning.Laws.{Changed, IsLawful}
use plugins.Tuning.Restore.{restore_backup-cmd_add}
use plugins.Tuning.Sysctls.{IsNetFile, write_sysctls-Keeps}

program : Unit {0}
unfolding set get remove backup_of sysctl_path squeeze has_prefix change_mac_addr change_promisc
    change_mtu change_allmulti announce create_backup restore_attributes restore_backup
    set_attributes write_sysctl write_sysctls tune cmd_add each
program = tt

-- The state is the link, and the files that were written.
abbrev World : Type 0
World = Link × List Text

-- Promiscuous mode cannot be switched on.
abbrev kernel : Kernel World
kernel = record {
  link = λ s. some s.0;
  parse_mac = λ mac. some mac;
  set_mac = λ mac s. (ok tt, (record s.0 { mac = mac }, s.1));
  set_promisc =
      λ b s. if b then (err kernel_failed, s) else (ok tt, (record s.0 { promisc = b }, s.1));
  set_mtu = λ n s. (ok tt, (record s.0 { mtu = n }, s.1));
  set_allmulti = λ b s. (ok tt, (record s.0 { allmulti = b }, s.1));
  write_file = λ file value s. (ok tt, (s.0, file ∷ s.1));
  read_file = λ file s. ok [];
  gratuitous_arp = λ ip s. s;
}

-- the link of a world
same_link : (s : World) (l : Link) → kernel.link s ≡ some l → s.0 ≡ l
same_link s l h = cc

set_promisc-Changed :
    (b : Bool) (s : World) (l : Link)
    → s.0 ≡ l
    → Changed kernel (kernel.set_promisc b s) l (record l { promisc = b })
set_promisc-Changed true s l e = ap some e
set_promisc-Changed false s l e = ap (λ (m : Link). some (record m { promisc = false })) e

kernel-IsLawful : IsLawful kernel
kernel-IsLawful = record {
  mac_law = λ m s l h. ap (λ (n : Link). some (record n { mac = m })) (same_link s l h);
  promisc_law = λ b s l h. set_promisc-Changed b s l (same_link s l h);
  mtu_law = λ t s l h. ap (λ (n : Link). some (record n { mtu = t })) (same_link s l h);
  allmulti_law = λ b s l h. ap (λ (n : Link). some (record n { allmulti = b })) (same_link s l h);
  file_law = λ p v s. refl;
  arp_law = λ ip s. refl;
}

-- a text for a backup
abbrev flag : Option Bool → ℕ
flag none = 0
flag (some false) = 1
flag (some true) = 2

abbrev of_flag : ℕ → Option Bool
of_flag n = if n == 0 then none else if n == 1 then some false else some true

of_flag-flag : (o : Option Bool) → of_flag (flag o) ≡ o
of_flag-flag none = refl
of_flag-flag (some false) = refl
of_flag-flag (some true) = refl

abbrev of_sign : ℕ → ℕ → ℤ
of_sign s n = if s == 0 then pos n else negsuc n

abbrev sign : ℤ → ℕ
sign (pos n) = 0
sign (negsuc n) = 1

abbrev size : ℤ → ℕ
size (pos n) = n
size (negsuc n) = n

of_sign-sign : (n : ℤ) → of_sign (sign n) (size n) ≡ n
of_sign-sign (pos n) = refl
of_sign-sign (negsuc n) = refl

abbrev marshal : Backup → Text
marshal b = flag b.promisc ∷ flag b.allmulti ∷ sign b.mtu ∷ size b.mtu ∷ b.mac

abbrev unmarshal : Text → Option Backup
unmarshal (p ∷ a ∷ s ∷ n ∷ mac) =
    some (record { mac = mac; promisc = of_flag p; mtu = of_sign s n; allmulti = of_flag a })
unmarshal _ = none

unmarshal-marshal : (b : Backup) → unmarshal (marshal b) ≡ some b
unmarshal-marshal b = rw (of_flag-flag b.promisc, of_flag-flag b.allmulti, of_sign-sign b.mtu) refl

abbrev first_link : Link
first_link = record { mac = text "0a:00"; promisc = false; mtu = pos 1500; allmulti = false }

abbrev conf : TuningConf
conf = record {
  data_dir = text "/run";
  sysctl = some ((text "net.ipv4.forwarding", text "1") ∷ []);
  mac = text "0c:01";
  promisc = true;
  mtu = pos 9000;
  allmulti = some true;
  runtime_mac = [];
  args = none;
  prev_result = some (ok (record { ips = []; interfaces = [] }));
}

abbrev start : Host World
start = record { kernel = (first_link, []); files = [] }

abbrev never : FileOp → Bool
never op = false

-- ADD changes the MAC address and fails at promiscuous mode; the restoration takes both back.
abbrev end : Host World
end = record { kernel = (first_link, text "/proc/sys/net/ipv4/forwarding" ∷ []); files = [] }

restore_backup-cmd_add_example : kernel.link end.kernel ≡ some first_link
unfolding program
restore_backup-cmd_add_example =
    restore_backup-cmd_add kernel kernel-IsLawful marshal unmarshal unmarshal-marshal refl
      (text "/run/c.json") (text "eth0") conf first_link refl refl never never start end refl refl
      refl refl

-- Every file that was written is a file of the network.
abbrev IsRecorded : World → Type 0
IsRecorded s = All IsNetFile s.1

write_sysctls-Keeps_example :
    IsRecorded
      (write_sysctls kernel
        (some ((text "net/ipv4", text "1") ∷ (text "kernel.x", text "1") ∷ []))
        (first_link, [])).1
write_sysctls-Keeps_example =
    write_sysctls-Keeps kernel IsRecorded (λ file value s net h. (net, h))
      (some ((text "net/ipv4", text "1") ∷ (text "kernel.x", text "1") ∷ [])) (first_link, []) tt
