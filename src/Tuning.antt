-- ===== src/Tuning.antt =====
-- plugins/meta/tuning/tuning.go: sysctls and attributes of an interface, with a backup of the
-- attributes that are changed.
--
-- Netlink, `net.ParseMAC`, ARP and the files of /proc/sys are a parameter, `Kernel`, over a state;
-- JSON and `path.Join` are parameters too. The backups are an association list of files.
pub mod Commands
pub mod Sysctls
pub mod Laws
pub mod Backups
pub mod Restore
use plugins.Prelude.{
  ℕ, zero, suc, ◌+◌, List, [], ◌∷◌, ◌++◌, map, Bool, true, false, ◌&&◌, ◌||◌, not, Option, none,
  some, Result, ok, err, Text, text, text_eq, ◌==◌, leb, if◌then◌else◌, reverse,
}
use plugins.Prelude.Int.{ℤ, pos, negsuc}
use plugins.Prelude.Effects.{Act, pure, fail, lift, check_that, modify, each, ◌>>=◌, ◌>>◌}
use plugins.Net.{Ip, IpNet, to4, is_nil}

pub data TuningError : Type 0 where
  bad_conf bad_env nil_map_panic missing_prev_result bad_prev_result bad_sysctl_key : TuningError
  bad_mac link_not_found file_failed restore_failed kernel_failed mismatch : TuningError

abbrev pub Pairs : Type 0
Pairs = List (Text × Text)

-- `IPAMArgs`
pub record TuningArgs : Type 0 where
  pub sysctl : Option Pairs
  pub mac : Option Text
  pub promisc : Option Bool
  pub mtu : Option ℤ
  pub allmulti : Option Bool

-- the previous result: its addresses, and the name and the MAC address of each interface
pub record PrevResult : Type 0 where
  pub ips : List IpNet
  pub interfaces : Pairs

-- `TuningConf`; a map that is not given is nil
pub record TuningConf : Type 0 where
  pub data_dir : Text
  pub sysctl : Option Pairs
  pub mac : Text
  pub promisc : Bool
  pub mtu : ℤ
  pub allmulti : Option Bool
  pub runtime_mac : Text
  pub args : Option (Option TuningArgs)
  pub prev_result : Option (Result TuningError PrevResult)

-- `configToRestore`
pub record Backup : Type 0 where
  pub mac : Text
  pub promisc : Option Bool
  pub mtu : ℤ
  pub allmulti : Option Bool

-- the attributes of a link that the plugin reads
pub record Link : Type 0 where
  pub mac : Text
  pub promisc : Bool
  pub mtu : ℤ
  pub allmulti : Bool

abbrev pub is_zero : ℤ → Bool
is_zero (pos zero) = true
is_zero (pos (suc n)) = false
is_zero (negsuc n) = false

abbrev pub eq_ℤ : ℤ → ℤ → Bool
eq_ℤ (pos n) (pos m) = n == m
eq_ℤ (pos n) (negsuc m) = false
eq_ℤ (negsuc n) (pos m) = false
eq_ℤ (negsuc n) (negsuc m) = n == m

abbrev pub eq_Bool : Bool → Bool → Bool
eq_Bool true b = b
eq_Bool false b = not b

-- `m[k] = v`, and the file of a path
unfoldable pub set : Text → Text → Pairs → Pairs
set k v [] = (k, v) ∷ []
set k v ((j, w) ∷ m) = if text_eq j k then (k, v) ∷ m else (j, w) ∷ set k v m

unfoldable pub get : Text → Pairs → Option Text
get k [] = none
get k ((j, w) ∷ m) = if text_eq j k then some w else get k m

unfoldable pub remove : Text → Pairs → Pairs
remove k [] = []
remove k ((j, w) ∷ m) = let rest = remove k m in if text_eq j k then rest else (j, w) ∷ rest

-- `for k, v := range args { conf.SysCtl[k] = v }`: the assignment to a nil map panics
unfoldable pub merge : Option Pairs → Pairs → Result TuningError (Option Pairs)
merge m [] = ok m
merge none (kv ∷ kvs) = err nil_map_panic
merge (some m) ((k, v) ∷ kvs) = merge (some (set k v m)) kvs

abbrev pub or_else {ℓ} : {A : Type ℓ} → Option A → A → A
or_else none b = b
or_else (some a) b = a

abbrev pub given_or : Option Bool → Option Bool → Option Bool
given_or none b = b
given_or (some a) b = some a

-- the values of `args.cni`
unfoldable pub with_args : TuningArgs → TuningConf → Result TuningError TuningConf
with_args a conf = elim (merge conf.sysctl (or_else a.sysctl [])) [
  | err e ↦ err e
  | ok sysctl ↦ ok (record conf {
    sysctl = sysctl;
    mac = or_else a.mac conf.mac;
    promisc = or_else a.promisc conf.promisc;
    mtu = or_else a.mtu conf.mtu;
    allmulti = given_or a.allmulti conf.allmulti;
  })
]

abbrev pub with_cni_args : Option (Option TuningArgs) → TuningConf → Result TuningError TuningConf
with_cni_args none conf = ok conf
with_cni_args (some none) conf = ok conf
with_cni_args (some (some a)) conf = with_args a conf

abbrev pub default_data_dir : Text
default_data_dir = text "/run/cni/tuning"

abbrev pub with_mac : Text → TuningConf → TuningConf
with_mac mac conf = if text_eq mac [] then conf else record conf { mac = mac }

abbrev pub with_data_dir : TuningConf → TuningConf
with_data_dir conf =
    if text_eq conf.data_dir [] then record conf { data_dir = default_data_dir } else conf

module _ (unmarshal : Text → Result TuningError TuningConf)
    (load_args : Text → Result TuningError Text) where
  abbrev pub with_env : Text → TuningConf → Result TuningError TuningConf
  with_env args conf =
      if text_eq args []
      then ok conf
      else elim (load_args args) [ err e ↦ err e | ok mac ↦ ok (with_mac mac conf) ]

  -- `parseConf`
  unfoldable pub parse_conf : Text → Text → Result TuningError TuningConf
  parse_conf bytes args = elim (unmarshal bytes) [
    | err e ↦ err e
    | ok conf ↦ elim (with_env args (with_data_dir conf)) [
      | err e ↦ err e
      | ok conf' ↦ with_cni_args conf'.args (with_mac conf'.runtime_mac conf')
    ]
  ]

-- `filepath.Clean` of a path without dots that is not the root: it has no slash after a slash, and
-- none at the end.
unfoldable pub squeeze : Text → Text
squeeze [] = []
squeeze (c ∷ s) =
    let rest = squeeze s in
    if c == b'/'
    then elim rest [ [] ↦ [] | d ∷ ds ↦ if d == b'/' then d ∷ ds else c ∷ d ∷ ds ]
    else c ∷ rest

abbrev pub slashed : Text → Text
slashed = map (λ c. if c == b'.' then b'/' else c)

-- the file of a sysctl
unfoldable pub sysctl_path : Text → Text
sysctl_path key = squeeze (text "/proc/sys/" ++ slashed key)

unfoldable pub has_prefix : Text → Text → Bool
has_prefix [] s = true
has_prefix (c ∷ p) [] = false
has_prefix (c ∷ p) (d ∷ s) = c == d && has_prefix p s

abbrev pub net_prefix : Text
net_prefix = text "/proc/sys/net/"

-- `strings.TrimSuffix(s, "\n")`
abbrev pub chomp : Text → Text
chomp [] = []
chomp (c ∷ []) = if c == 10 then [] else c ∷ []
chomp (c ∷ d ∷ s) = c ∷ chomp (d ∷ s)

pub record Kernel (S : Type 0) : Type 0 where
  -- what `LinkByName` returns for the interface
  pub link : S → Option Link
  -- the text of the address that a text stands for
  pub parse_mac : Text → Option Text
  pub set_mac : Text → Act TuningError S (Unit {0})
  pub set_promisc : Bool → Act TuningError S (Unit {0})
  pub set_mtu : ℤ → Act TuningError S (Unit {0})
  pub set_allmulti : Bool → Act TuningError S (Unit {0})
  pub write_file : Text → Text → Act TuningError S (Unit {0})
  pub read_file : Text → S → Result TuningError Text
  pub gratuitous_arp : Ip → S → S

-- the system calls on the backup, any of which may fail
pub data FileOp : Type 0 where
  make_dir open_file write_file read_file remove_file : FileOp

pub record Host (S : Type 0) : Type 0 where
  pub kernel : S
  pub files : Pairs

-- `updateResultsMacAddr`
unfoldable pub update_macs : Text → Text → Pairs → Pairs
update_macs if_name mac = map (λ i. if text_eq i.0 if_name then (i.0, mac) else i)

-- the backup that `createBackup` writes
unfoldable pub backup_of : TuningConf → Link → Backup
backup_of conf link = record {
  mac = if text_eq conf.mac [] then [] else link.mac;
  promisc = if conf.promisc then some link.promisc else none;
  mtu = if is_zero conf.mtu then pos 0 else link.mtu;
  allmulti = if is_nil conf.allmulti then none else some link.allmulti;
}

abbrev pub has_attributes : TuningConf → Bool
has_attributes conf =
    not (text_eq conf.mac [])
    || not (is_zero conf.mtu)
    || conf.promisc
    || not (is_nil conf.allmulti)
