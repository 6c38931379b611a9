-- ===== src/Tuning/Laws.antt =====
-- What netlink promises of a link's attributes, and what a backup makes of them.
use plugins.Prelude.{
  ◌≡◌, [], ◌∷◌, Bool, true, false, not, Option, none, some, Result, ok, err, Text, text_eq,
  text_eq_self, if◌then◌else◌, arith,
}
use plugins.Prelude.Int.{ℤ}
use plugins.Net.{Ip}
use plugins.Tuning.{
  TuningError, TuningConf, Backup, Link, Kernel, Pairs, is_zero, get, set, backup_of,
}

pub get-set : (p v : Text) (files : Pairs) → get p (set p v files) ≡ some v
unfolding get set
get-set p v [] = ground (arith, text_eq_self p)
get-set p v ((q, w) ∷ files) = ground (arith, text_eq_self p, get-set p v files)

-- A setter that returns no error has made its change, and one that returns an error has not.
abbrev pub Changed :
    {S : Type 0} → Kernel S → Result TuningError (Unit {0}) × S → Link → Link → Type 0
Changed k (ok _, s) before after = k.link s ≡ some after
Changed k (err _, s) before after = k.link s ≡ some before

-- What netlink promises of the attributes.
pub record IsLawful {S : Type 0} (k : Kernel S) : Type 0 where
  pub mac_law :
      (m : Text) (s : S) (l : Link)
      → k.link s ≡ some l
      → Changed k (k.set_mac m s) l (record l { mac = m })
  pub promisc_law :
      (b : Bool) (s : S) (l : Link)
      → k.link s ≡ some l
      → Changed k (k.set_promisc b s) l (record l { promisc = b })
  pub mtu_law :
      (n : ℤ) (s : S) (l : Link)
      → k.link s ≡ some l
      → Changed k (k.set_mtu n s) l (record l { mtu = n })
  pub allmulti_law :
      (b : Bool) (s : S) (l : Link)
      → k.link s ≡ some l
      → Changed k (k.set_allmulti b s) l (record l { allmulti = b })
  pub file_law : (p v : Text) (s : S) → k.link (k.write_file p v s).1 ≡ k.link s
  pub arp_law : (ip : Ip) (s : S) → k.link (k.gratuitous_arp ip s) ≡ k.link s

abbrev pub put_mtu : ℤ → Link → Link
put_mtu n l = if not (is_zero n) then record l { mtu = n } else l

abbrev pub put_mac : Text → Link → Link
put_mac m l = if not (text_eq m []) then record l { mac = m } else l

abbrev pub put_promisc : Option Bool → Link → Link
put_promisc none l = l
put_promisc (some b) l = record l { promisc = b }

abbrev pub put_allmulti : Option Bool → Link → Link
put_allmulti none l = l
put_allmulti (some b) l = record l { allmulti = b }

-- the link with the attributes of a backup
abbrev pub restored : Backup → Link → Link
restored b l = put_allmulti b.allmulti (put_promisc b.promisc (put_mac b.mac (put_mtu b.mtu l)))

pub restored_self : (conf : TuningConf) (l : Link) → restored (backup_of conf l) l ≡ l
unfolding backup_of
restored_self conf l = ground arith

module _ (conf : TuningConf) (l0 : Link) (has_mac : text_eq l0.mac [] ≡ false)
    (has_mtu : is_zero l0.mtu ≡ false) where
  pub restored_mac :
      (l : Link) (m : Text)
      → text_eq conf.mac [] ≡ false
      → restored (backup_of conf l0) (record l { mac = m }) ≡ restored (backup_of conf l0) l
  unfolding backup_of
  restored_mac l m h = ground arith

  pub restored_mtu :
      (l : Link) (n : ℤ)
      → is_zero conf.mtu ≡ false
      → restored (backup_of conf l0) (record l { mtu = n }) ≡ restored (backup_of conf l0) l
  unfolding backup_of
  restored_mtu l n h = ground arith

  pub restored_promisc :
      (l : Link) (b : Bool)
      → conf.promisc ≡ true
      → restored (backup_of conf l0) (record l { promisc = b }) ≡ restored (backup_of conf l0) l
  unfolding backup_of
  restored_promisc l b h = ground arith

  pub restored_allmulti :
      (l : Link) (b c : Bool)
      → conf.allmulti ≡ some c
      → restored (backup_of conf l0) (record l { allmulti = b }) ≡ restored (backup_of conf l0) l
  unfolding backup_of
  restored_allmulti l b c h = ground arith
