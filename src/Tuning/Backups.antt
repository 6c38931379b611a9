-- ===== src/Tuning/Backups.antt =====
-- ADD of plugins/meta/tuning/tuning.go: the backup that it leaves gives the attributes of the link
-- back, however far the changes went.
use plugins.Prelude.{
  ◌≡◌, refl, ◌∙◌, ◌⊎◌, inl, inr, List, [], ◌∷◌, Bool, true, false, ◌||◌, Option, none, some, Result,
  ok, err, Text, text_eq, if◌then◌else◌, arith, Bool-cases, Option-cases,
}
use plugins.Prelude.Effects.{
  Act, pure, ◌>>◌, >>-Keeps, >>-cases, each-Keeps, check_that-Keeps, check_that,
}
use plugins.Net.{IpNet, to4, is_nil}
use plugins.Tuning.{
  TuningError, TuningConf, PrevResult, Backup, Link, Kernel, Host, FileOp, Pairs, is_zero, get,
  backup_of, has_attributes, sysctl_path, has_prefix, net_prefix, bad_sysctl_key, file_failed,
  make_dir, open_file, write_file,
}
use plugins.Tuning.Commands.{
  on_kernel, on_link, change_mac_addr, change_promisc, change_mtu, change_allmulti, write_sysctl,
  write_sysctls, announce, create_backup, set_mac_addr, set_promisc, set_mtu, set_allmulti,
  set_attributes, tune,
}
use plugins.Tuning.Laws.{
  get-set, Changed, IsLawful, restored, restored_self, restored_mac, restored_mtu, restored_promisc,
  restored_allmulti,
}

module _ {S : Type 0} (k : Kernel S) (lawful : IsLawful k) where
  -- The kernel has a link.
  abbrev pub Has : Link → Host S → Type 0
  Has l h = k.link h.kernel ≡ some l

  write_sysctls-Has :
      (l : Link) (kvs : Option Pairs) (s : S)
      → k.link s ≡ some l
      → k.link (write_sysctls k kvs s).1 ≡ some l
  unfolding write_sysctls write_sysctl
  write_sysctls-Has l none s h = h
  write_sysctls-Has l (some kvs) s h =
      each-Keeps (λ s'. k.link s' ≡ some l) (write_sysctl k)
        (λ kv.
          >>-Keeps (λ s'. k.link s' ≡ some l)
            (check_that (has_prefix net_prefix (sysctl_path kv.0)) bad_sysctl_key)
            (k.write_file (sysctl_path kv.0) kv.1)
            (check_that-Keeps (λ s'. k.link s' ≡ some l) (has_prefix net_prefix (sysctl_path kv.0))
              bad_sysctl_key)
            (λ s' e. lawful.file_law (sysctl_path kv.0) kv.1 s' ∙ e))
        kvs s h

  announce-link : (ips : List IpNet) (s : S) → k.link (announce k ips s) ≡ k.link s
  unfolding announce
  announce-link [] s = refl
  announce-link (n ∷ ips) s = elim (Bool-cases (is_nil (to4 n.ip))) [
    | inl e ↦ rw (announce, e) (announce-link ips s)
    | inr e ↦ rw (announce, e) (announce-link ips (k.gratuitous_arp n.ip s) ∙ lawful.arp_law n.ip s)
  ]

  module _ (marshal : Backup → Text) (unmarshal : Text → Option Backup)
      (json : (b : Backup) → unmarshal (marshal b) ≡ some b) (no_json : unmarshal [] ≡ none)
      (path : Text) (conf : TuningConf) (prev : PrevResult) (l0 : Link)
      (has_mac : text_eq l0.mac [] ≡ false) (has_mtu : is_zero l0.mtu ≡ false) where
    -- The backup is written, and gives the first link back.
    pub record IsKept (h : Host S) : Type 0 where
      pub now : Link
      pub found : k.link h.kernel ≡ some now
      pub saved : get path h.files ≡ some (marshal (backup_of conf l0))
      pub back : restored (backup_of conf l0) now ≡ l0

    on_kernel-IsKept :
        (c : Result TuningError (Unit {0}) × S) (l l' : Link) (h : Host S)
        → Changed k c l l'
        → get path h.files ≡ some (marshal (backup_of conf l0))
        → restored (backup_of conf l0) l ≡ l0
        → restored (backup_of conf l0) l' ≡ l0
        → IsKept (record h { kernel = c.1 })
    on_kernel-IsKept (ok u, s) l l' h c g b b' = record {
      now = l';
      found = c;
      saved = g;
      back = b';
    }
    on_kernel-IsKept (err e, s) l l' h c g b b' = record { now = l; found = c; saved = g; back = b }

    on_link-IsKept :
        (m : Act TuningError S (Unit {0})) (f : Link → Link)
        → ((s : S) (l : Link) → k.link s ≡ some l → Changed k (m s) l (f l))
        → ((l : Link) → restored (backup_of conf l0) (f l) ≡ restored (backup_of conf l0) l)
        → (h : Host S) → IsKept h
        → IsKept (on_link k m h).1
    on_link-IsKept m f law same h kept = rw kept.found (
        on_kernel-IsKept (m h.kernel) kept.now (f kept.now) h (law h.kernel kept.now kept.found)
          kept.saved kept.back (same kept.now ∙ kept.back))

    change_mac_addr-IsKept :
        (mac : Text)
        → text_eq conf.mac [] ≡ false
        → (h : Host S) → IsKept h
        → IsKept (change_mac_addr k mac h).1
    unfolding change_mac_addr
    change_mac_addr-IsKept mac given h kept = elim (Option-cases (k.parse_mac mac)) [
      | inl e ↦ rw (change_mac_addr, e) kept
      | inr (addr, e) ↦
          rw (change_mac_addr, e)
            (on_link-IsKept (k.set_mac addr) (λ l. record l { mac = addr }) (lawful.mac_law addr)
              (λ l. restored_mac conf l0 has_mac has_mtu l addr given) h kept)
    ]

    announce-IsKept :
        (h : Host S) → IsKept h → IsKept (record h { kernel = announce k prev.ips h.kernel })
    announce-IsKept h kept = record {
      now = kept.now;
      found = announce-link prev.ips h.kernel ∙ kept.found;
      saved = kept.saved;
      back = kept.back;
    }

    set_mac_addr-IsKept : (h : Host S) → IsKept h → IsKept (set_mac_addr k conf prev h).1
    set_mac_addr-IsKept h kept = elim (Bool-cases (text_eq conf.mac [])) [
      | inl e ↦ rw e kept
      | inr e ↦ rw e (
          >>-Keeps IsKept (change_mac_addr k conf.mac)
            (λ h'. (ok tt, record h' { kernel = announce k prev.ips h'.kernel }))
            (change_mac_addr-IsKept conf.mac e) announce-IsKept h kept)
    ]

    promisc_on-IsKept :
        (b : Bool)
        → conf.promisc ≡ b
        → (h : Host S) → IsKept h
        → IsKept ((if b then change_promisc k true else pure tt) h).1
    unfolding change_promisc
    promisc_on-IsKept true e h kept =
        on_link-IsKept (k.set_promisc true) (λ l. record l { promisc = true })
          (lawful.promisc_law true) (λ l. restored_promisc conf l0 has_mac has_mtu l true e) h kept
    promisc_on-IsKept false e h kept = kept

    set_promisc-IsKept : (h : Host S) → IsKept h → IsKept (set_promisc k conf h).1
    set_promisc-IsKept = promisc_on-IsKept conf.promisc refl

    set_mtu-IsKept : (h : Host S) → IsKept h → IsKept (set_mtu k conf h).1
    unfolding change_mtu
    set_mtu-IsKept h kept = elim (Bool-cases (is_zero conf.mtu)) [
      | inl e ↦ rw e kept
      | inr e ↦ rw e (
          on_link-IsKept (k.set_mtu conf.mtu) (λ l. record l { mtu = conf.mtu })
            (lawful.mtu_law conf.mtu) (λ l. restored_mtu conf l0 has_mac has_mtu l conf.mtu e) h
            kept)
    ]

    allmulti_at-IsKept :
        (o : Option Bool)
        → conf.allmulti ≡ o
        → (h : Host S) → IsKept h
        → IsKept (set_allmulti k o h).1
    unfolding change_allmulti
    allmulti_at-IsKept none e h kept = kept
    allmulti_at-IsKept (some b) e h kept =
        on_link-IsKept (k.set_allmulti b) (λ l. record l { allmulti = b }) (lawful.allmulti_law b)
          (λ l. restored_allmulti conf l0 has_mac has_mtu l b b e) h kept

    set_allmulti-IsKept : (h : Host S) → IsKept h → IsKept (set_allmulti k conf.allmulti h).1
    set_allmulti-IsKept = allmulti_at-IsKept conf.allmulti refl

    set_attributes-IsKept : (h : Host S) → IsKept h → IsKept (set_attributes k conf prev h).1
    unfolding set_attributes
    set_attributes-IsKept =
        >>-Keeps IsKept (set_mac_addr k conf prev)
          (set_promisc k conf >> (set_mtu k conf >> set_allmulti k conf.allmulti))
          set_mac_addr-IsKept
          (>>-Keeps IsKept (set_promisc k conf) (set_mtu k conf >> set_allmulti k conf.allmulti)
            set_promisc-IsKept
            (>>-Keeps IsKept (set_mtu k conf) (set_allmulti k conf.allmulti) set_mtu-IsKept
              set_allmulti-IsKept))

    -- Before the backup is written, or where writing it fails.
    unfoldable pub IsUntouched : Host S → Type 0
    IsUntouched h =
        (k.link h.kernel ≡ some l0) × ((get path h.files ≡ none) ⊎ (get path h.files ≡ some []))

    create_backup-ends :
        (fails : FileOp → Bool) (h : Host S)
        → k.link h.kernel ≡ some l0
        → get path h.files ≡ none
        → (((create_backup k marshal unmarshal fails path conf h).0 ≡ ok tt)
            × IsKept (create_backup k marshal unmarshal fails path conf h).1)
          ⊎ (((create_backup k marshal unmarshal fails path conf h).0 ≡ err file_failed)
              × IsUntouched (create_backup k marshal unmarshal fails path conf h).1)
    unfolding create_backup IsUntouched
    create_backup-ends fails h found fresh = elim (Bool-cases (fails make_dir || fails open_file)) [
      | inl e ↦ rw (create_backup, found, e) (inr (refl, (found, inl fresh)))
      | inr e ↦ elim (Bool-cases (fails write_file)) [
        | inl f ↦
            rw (create_backup, found, e, f) (inr (refl, (found, inr (get-set path [] h.files))))
        | inr f ↦
            rw (create_backup, found, e, f)
              (inl (
                refl,
                record {
                  now = l0;
                  found = found;
                  saved = get-set path (marshal (backup_of conf l0)) h.files;
                  back = restored_self conf l0;
                },
              ))
      ]
    ]

    set_attributes_none :
        has_attributes conf ≡ false → (h : Host S) → set_attributes k conf prev h ≡ (ok tt, h)
    unfolding set_attributes
    set_attributes_none e h =
        let mac : text_eq conf.mac [] ≡ true = ground arith in
        let mtu : is_zero conf.mtu ≡ true = ground arith in
        let promisc : conf.promisc ≡ false = ground arith in
        let allmulti : conf.allmulti ≡ none = ground arith in
        simp (set_attributes, mac, mtu, promisc, allmulti) refl

    unfoldable pub Ends : Host S → Type 0
    Ends h = IsKept h ⊎ IsUntouched h

    backed_up-Ends :
        (fails : FileOp → Bool) (h : Host S)
        → k.link h.kernel ≡ some l0
        → get path h.files ≡ none
        → Ends
            (((if has_attributes conf
                  then create_backup k marshal unmarshal fails path conf
                  else pure tt)
                >> set_attributes k conf prev)
              h).1
    unfolding Ends IsUntouched
    backed_up-Ends fails h found fresh = elim (Bool-cases (has_attributes conf)) [
      | inl e ↦ elim (create_backup-ends fails h found fresh) [
        | inl (o, kept) ↦
            rw (e, o)
              (inl (
                set_attributes-IsKept (create_backup k marshal unmarshal fails path conf h).1 kept))
        | inr (o, untouched) ↦ rw (e, o) (inr untouched)
      ]
      | inr e ↦ rw (e, set_attributes_none e h) (inr (found, inl fresh))
    ]

    pub tune-Ends :
        (fails : FileOp → Bool) (h : Host S)
        → k.link h.kernel ≡ some l0
        → get path h.files ≡ none
        → Ends (tune k marshal unmarshal fails path conf prev h).1
    unfolding tune Ends IsUntouched
    tune-Ends fails h found fresh =
        let rest : Act TuningError (Host S) (Unit {0}) =
          (if has_attributes conf
            then create_backup k marshal unmarshal fails path conf
            else pure tt)
          >> set_attributes k conf prev in
        let first = on_kernel k (write_sysctls k conf.sysctl) in
        let found' = write_sysctls-Has l0 conf.sysctl h.kernel found in
        elim (>>-cases first rest h) [
          | inl (u, o, e) ↦ rw e (backed_up-Ends fails (first h).1 found' fresh)
          | inr (x, o, e) ↦ rw e (inr (found', inl fresh))
        ]
