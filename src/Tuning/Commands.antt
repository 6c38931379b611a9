-- ===== src/Tuning/Commands.antt =====
-- The commands of plugins/meta/tuning/tuning.go, with the backup and its restoration.
use plugins.Prelude.{
  List, [], ◌∷◌, Bool, true, false, ◌&&◌, ◌||◌, not, Option, none, some, Result, ok, err, Text,
  text_eq, if◌then◌else◌,
}
use plugins.Prelude.Int.{ℤ}
use plugins.Prelude.Effects.{Act, pure, fail, check_that, each, ◌>>◌}
use plugins.Net.{IpNet, to4, is_nil}
use plugins.Tuning.{
  TuningError, TuningConf, PrevResult, Backup, Link, Kernel, Host, FileOp, Pairs, is_zero, eq_ℤ,
  eq_Bool, get, set, remove, sysctl_path, has_prefix, net_prefix, chomp, update_macs, backup_of,
  has_attributes, make_dir, open_file, write_file, read_file, remove_file, bad_mac, link_not_found,
  file_failed, restore_failed, bad_sysctl_key, missing_prev_result, mismatch,
}

abbrev pub result_macs : Text → TuningConf → Pairs → Pairs
result_macs if_name conf interfaces =
    if text_eq conf.mac [] then interfaces else update_macs if_name conf.mac interfaces

-- the comparisons of `cmdCheck` with the link
unfoldable pub check_link : TuningConf → Link → Bool
check_link conf link =
    (text_eq conf.mac [] || text_eq conf.mac link.mac)
    && eq_Bool conf.promisc link.promisc
    && (is_zero conf.mtu || eq_ℤ conf.mtu link.mtu)
    && elim conf.allmulti [ none ↦ true | some b ↦ eq_Bool link.allmulti b ]

abbrev pairs_of : Option Pairs → Pairs
pairs_of none = []
pairs_of (some kvs) = kvs

module _ {S : Type 0} (k : Kernel S) where
  -- an action of the kernel
  abbrev pub on_kernel : {A : Type 0} → Act TuningError S A → Act TuningError (Host S) A
  on_kernel m h = let (r, s) = m h.kernel in (r, record h { kernel = s })

  -- `netlink.LinkByName`, then an action
  abbrev pub on_link : Act TuningError S (Unit {0}) → Act TuningError (Host S) (Unit {0})
  on_link m h = if is_nil (k.link h.kernel) then (err link_not_found, h) else on_kernel m h

  unfoldable pub change_mac_addr : Text → Act TuningError (Host S) (Unit {0})
  change_mac_addr mac h = elim (k.parse_mac mac) [
    | none ↦ (err bad_mac, h)
    | some addr ↦ on_link (k.set_mac addr) h
  ]

  unfoldable pub change_promisc : Bool → Act TuningError (Host S) (Unit {0})
  change_promisc val = on_link (k.set_promisc val)

  unfoldable pub change_mtu : ℤ → Act TuningError (Host S) (Unit {0})
  change_mtu mtu = on_link (k.set_mtu mtu)

  unfoldable pub change_allmulti : Bool → Act TuningError (Host S) (Unit {0})
  change_allmulti val = on_link (k.set_allmulti val)

  -- the body of the loop of `cmdAdd` over the sysctls
  unfoldable pub write_sysctl : Text × Text → Act TuningError S (Unit {0})
  write_sysctl kv =
      check_that (has_prefix net_prefix (sysctl_path kv.0)) bad_sysctl_key
      >> k.write_file (sysctl_path kv.0) kv.1

  unfoldable pub write_sysctls : Option Pairs → Act TuningError S (Unit {0})
  write_sysctls none = pure tt
  write_sysctls (some kvs) = each kvs write_sysctl

  -- the gratuitous ARP replies
  unfoldable pub announce : List IpNet → S → S
  announce [] s = s
  announce (n ∷ ips) s =
      let rest = announce ips in
      if is_nil (to4 n.ip) then rest s else rest (k.gratuitous_arp n.ip s)

  -- one attribute of `restoreBackup`: an error is kept for the end
  abbrev pub attempt : Bool → Act TuningError (Host S) (Unit {0}) → Bool × Host S → Bool × Host S
  attempt given m (failed, h) =
      if given
      then (let (r, h') = m h in (elim r [ ok _ ↦ failed | err _ ↦ true ], h'))
      else (failed, h)

  abbrev pub restore_bool :
      (Bool → Act TuningError (Host S) (Unit {0})) → Option Bool → Bool × Host S → Bool × Host S
  restore_bool change none c = c
  restore_bool change (some b) c = attempt true (change b) c

  -- the attributes of `restoreBackup`, in its order, and whether one failed
  unfoldable pub restore_attributes : Backup → Host S → Bool × Host S
  restore_attributes b h = restore_bool change_allmulti b.allmulti (
      restore_bool change_promisc b.promisc (
        attempt (not (text_eq b.mac [])) (change_mac_addr b.mac)
          (attempt (not (is_zero b.mtu)) (change_mtu b.mtu) (false, h))))

  -- the attributes of `cmdAdd`, after the backup
  abbrev pub set_mac_addr : TuningConf → PrevResult → Act TuningError (Host S) (Unit {0})
  set_mac_addr conf prev h =
      if text_eq conf.mac []
      then (ok tt, h)
      else (change_mac_addr conf.mac >> λ h'.
            (ok tt, record h' { kernel = announce prev.ips h'.kernel }))
          h

  abbrev pub set_promisc : TuningConf → Act TuningError (Host S) (Unit {0})
  set_promisc conf = if conf.promisc then change_promisc true else pure tt

  abbrev pub set_mtu : TuningConf → Act TuningError (Host S) (Unit {0})
  set_mtu conf = if is_zero conf.mtu then pure tt else change_mtu conf.mtu

  abbrev pub set_allmulti : Option Bool → Act TuningError (Host S) (Unit {0})
  set_allmulti none = pure tt
  set_allmulti (some b) = change_allmulti b

  unfoldable pub set_attributes : TuningConf → PrevResult → Act TuningError (Host S) (Unit {0})
  set_attributes conf prev =
      set_mac_addr conf prev >> (set_promisc conf >> (set_mtu conf >> set_allmulti conf.allmulti))

  module _ (marshal : Backup → Text) (unmarshal : Text → Option Backup)
      (fails : FileOp → Bool) where
    -- `createBackup`: the file is empty where it was opened and not written
    unfoldable pub create_backup : Text → TuningConf → Act TuningError (Host S) (Unit {0})
    create_backup path conf h = elim (k.link h.kernel) [
      | none ↦ (err link_not_found, h)
      | some link ↦
          if fails make_dir || fails open_file
          then (err file_failed, h)
          else if fails write_file
          then (err file_failed, record h { files = set path [] h.files })
          else (ok tt, record h { files = set path (marshal (backup_of conf link)) h.files })
    ]

    abbrev pub forget : Text → Bool × Host S → Result TuningError (Unit {0}) × Host S
    forget path (true, h) = (err restore_failed, h)
    forget path (false, h) =
        if fails remove_file
        then (err file_failed, h)
        else (ok tt, record h { files = remove path h.files })

    abbrev pub restore_from : Text → Option Backup → Act TuningError (Host S) (Unit {0})
    restore_from path none h = (ok tt, h)
    restore_from path (some b) h =
        if is_nil (k.link h.kernel) then (ok tt, h) else forget path (restore_attributes b h)

    -- `restoreBackup`
    unfoldable pub restore_backup : Text → Act TuningError (Host S) (Unit {0})
    restore_backup path h = elim (get path h.files) [
      | none ↦ (ok tt, h)
      | some content ↦
          if fails read_file then (err file_failed, h) else restore_from path (unmarshal content) h
    ]

    -- what `cmdAdd` does in the network namespace
    unfoldable pub tune : Text → TuningConf → PrevResult → Act TuningError (Host S) (Unit {0})
    tune path conf prev =
        on_kernel (write_sysctls conf.sysctl)
        >> ((if has_attributes conf then create_backup path conf else pure tt)
            >> set_attributes conf prev)

    -- `cmdAdd` after the configuration is parsed
    unfoldable pub cmd_add : Text → Text → TuningConf → Act TuningError (Host S) PrevResult
    cmd_add path if_name conf = elim conf.prev_result [
      | none ↦ fail missing_prev_result
      | some (err e) ↦ fail e
      | some (ok prev) ↦
          tune path conf prev
          >> pure (record prev { interfaces = result_macs if_name conf prev.interfaces })
    ]

    -- `cmdDel` after the configuration is parsed: it drops the error
    unfoldable pub cmd_del : Text → Act TuningError (Host S) (Unit {0})
    cmd_del path h = (ok tt, (restore_backup path h).1)

  abbrev check_sysctl : S → Text × Text → Act TuningError (Unit {0}) (Unit {0})
  check_sysctl s kv u = elim (k.read_file (sysctl_path kv.0) s) [
    | err e ↦ (err e, u)
    | ok contents ↦ check_that (text_eq kv.1 (chomp contents)) mismatch u
  ]

  abbrev check_found : TuningConf → Option Link → Act TuningError (Unit {0}) (Unit {0})
  check_found conf none = fail link_not_found
  check_found conf (some link) = check_that (check_link conf link) mismatch

  abbrev check_all : TuningConf → S → Result TuningError (Unit {0})
  check_all conf s =
      ((each (pairs_of conf.sysctl) (check_sysctl s) >> check_found conf (k.link s)) tt).0

  -- `cmdCheck` after the configuration is parsed
  unfoldable pub cmd_check : TuningConf → S → Result TuningError (Unit {0})
  cmd_check conf s = elim conf.prev_result [
    | none ↦ err missing_prev_result
    | some (err e) ↦ err e
    | some (ok prev) ↦ check_all conf s
  ]
