-- ===== src/Tuning/Restore.antt =====
-- DEL of plugins/meta/tuning/tuning.go after ADD: the attributes of the link come back.
use plugins.Prelude.{
  ◌≡◌, refl, ap, ◌∙◌, inl, inr, [], Bool, true, false, not, Option, none, some, Result, ok, err,
  Text, text_eq, if◌then◌else◌, arith, Bool-cases,
}
use plugins.Prelude.Effects.{Act, pure, >>-cases}
use plugins.Tuning.{
  TuningError, TuningConf, PrevResult, Backup, Link, Kernel, Host, FileOp, is_zero, get, backup_of,
  read_file, remove_file,
}
use plugins.Tuning.Commands.{
  on_link, change_mac_addr, change_promisc, change_mtu, change_allmulti, attempt, restore_bool,
  restore_attributes, forget, restore_backup, tune, cmd_add, result_macs,
}
use plugins.Tuning.Laws.{Changed, IsLawful, put_mtu, put_promisc, put_allmulti, restored}
use plugins.Tuning.Backups.{IsUntouched, Ends, tune-Ends}

module _ {S : Type 0} (k : Kernel S) (lawful : IsLawful k) where
  -- If nothing has failed yet, the link is a given one.
  abbrev IsAt : Bool × Host S → Link → Type 0
  IsAt (true, h) l = Unit {0}
  IsAt (false, h) l = k.link h.kernel ≡ some l

  -- An action that returns no error has changed the link in a given way.
  abbrev HasChanged : Result TuningError (Unit {0}) × Host S → Link → Type 0
  HasChanged (ok _, h) l = k.link h.kernel ≡ some l
  HasChanged (err _, h) l = Unit {0}

  on_kernel-HasChanged :
      (c : Result TuningError (Unit {0}) × S) (h : Host S) (l l' : Link)
      → Changed k c l l'
      → HasChanged (c.0, record h { kernel = c.1 }) l'
  on_kernel-HasChanged (ok _, s) h l l' e = e
  on_kernel-HasChanged (err _, s) h l l' e = tt

  on_link-HasChanged :
      (m : Act TuningError S (Unit {0})) (h : Host S) (l l' : Link)
      → k.link h.kernel ≡ some l
      → Changed k (m h.kernel) l l'
      → HasChanged (on_link k m h) l'
  on_link-HasChanged m h l l' found e = rw found (on_kernel-HasChanged (m h.kernel) h l l' e)

  change_mac_addr-HasChanged :
      (mac : Text) (h : Host S) (l : Link)
      → k.parse_mac mac ≡ some mac
      → k.link h.kernel ≡ some l
      → HasChanged (change_mac_addr k mac h) (record l { mac = mac })
  unfolding change_mac_addr
  change_mac_addr-HasChanged mac h l p found =
      rw (change_mac_addr, p)
        (on_link-HasChanged (k.set_mac mac) h l (record l { mac = mac }) found
          (lawful.mac_law mac h.kernel l found))

  failed-IsAt :
      (c : Result TuningError (Unit {0}) × Host S) (l : Link)
      → IsAt (elim c.0 [ ok _ ↦ true | err _ ↦ true ], c.1) l
  failed-IsAt (ok _, h) l = tt
  failed-IsAt (err _, h) l = tt

  done-IsAt :
      (c : Result TuningError (Unit {0}) × Host S) (l : Link)
      → HasChanged c l
      → IsAt (elim c.0 [ ok _ ↦ false | err _ ↦ true ], c.1) l
  done-IsAt (ok _, h) l e = e
  done-IsAt (err _, h) l e = tt

  attempt-IsAt :
      (given : Bool) (m : Act TuningError (Host S) (Unit {0})) (f : Link → Link) (c : Bool × Host S)
      (l : Link)
      → (given ≡ true → (h : Host S) → k.link h.kernel ≡ some l → HasChanged (m h) (f l))
      → IsAt c l
      → IsAt (attempt k given m c) (if given then f l else l)
  attempt-IsAt true m f (true, h) l law e = failed-IsAt (m h) (f l)
  attempt-IsAt true m f (false, h) l law e = done-IsAt (m h) (f l) (law refl h e)
  attempt-IsAt false m f (true, h) l law e = e
  attempt-IsAt false m f (false, h) l law e = e

  restore_promisc-IsAt :
      (o : Option Bool) (c : Bool × Host S) (l : Link)
      → IsAt c l
      → IsAt (restore_bool k (change_promisc k) o c) (put_promisc o l)
  unfolding change_promisc
  restore_promisc-IsAt none c l e = e
  restore_promisc-IsAt (some b) c l e =
      attempt-IsAt true (change_promisc k b) (λ l. record l { promisc = b }) c l
        (λ g h found.
          on_link-HasChanged (k.set_promisc b) h l (record l { promisc = b }) found
            (lawful.promisc_law b h.kernel l found))
        e

  restore_allmulti-IsAt :
      (o : Option Bool) (c : Bool × Host S) (l : Link)
      → IsAt c l
      → IsAt (restore_bool k (change_allmulti k) o c) (put_allmulti o l)
  unfolding change_allmulti
  restore_allmulti-IsAt none c l e = e
  restore_allmulti-IsAt (some b) c l e =
      attempt-IsAt true (change_allmulti k b) (λ l. record l { allmulti = b }) c l
        (λ g h found.
          on_link-HasChanged (k.set_allmulti b) h l (record l { allmulti = b }) found
            (lawful.allmulti_law b h.kernel l found))
        e

  -- Restoring without a failure puts every attribute of the backup.
  restore_attributes-IsAt :
      (b : Backup) (h : Host S) (l : Link)
      → (not (text_eq b.mac []) ≡ true → k.parse_mac b.mac ≡ some b.mac)
      → k.link h.kernel ≡ some l
      → IsAt (restore_attributes k b h) (restored b l)
  unfolding restore_attributes change_mtu
  restore_attributes-IsAt b h l p found =
      let mtu_done =
        attempt-IsAt (not (is_zero b.mtu)) (change_mtu k b.mtu) (λ l. record l { mtu = b.mtu })
          (false, h) l
          (λ g h' e.
            on_link-HasChanged (k.set_mtu b.mtu) h' l (record l { mtu = b.mtu }) e
              (lawful.mtu_law b.mtu h'.kernel l e))
          found in
      let l1 = put_mtu b.mtu l in
      let mac_done =
        attempt-IsAt (not (text_eq b.mac [])) (change_mac_addr k b.mac)
          (λ l. record l { mac = b.mac })
          (attempt k (not (is_zero b.mtu)) (change_mtu k b.mtu) (false, h)) l1
          (λ g h' e. change_mac_addr-HasChanged b.mac h' l1 (p g) e) mtu_done in
      restore_allmulti-IsAt b.allmulti _ _ (restore_promisc-IsAt b.promisc _ _ mac_done)

  module _ (marshal : Backup → Text) (unmarshal : Text → Option Backup)
      (json : (b : Backup) → unmarshal (marshal b) ≡ some b) (no_json : unmarshal [] ≡ none)
      (path : Text) (conf : TuningConf) (prev : PrevResult) (l0 : Link)
      (has_mac : text_eq l0.mac [] ≡ false) (has_mtu : is_zero l0.mtu ≡ false) where
    forget-link :
        (fails : FileOp → Bool) (c : Bool × Host S) (l : Link) (h : Host S)
        → IsAt c l
        → forget k marshal unmarshal fails path c ≡ (ok tt, h)
        → k.link h.kernel ≡ some l
    forget-link fails (true, h1) l h now e = absurd cc
    forget-link fails (false, h1) l h now e = elim (Bool-cases (fails remove_file)) [
      | inl f ↦ let e' = rw f at e in absurd cc
      | inr f ↦ let e' = rw f at e in let same : h.kernel ≡ h1.kernel = cc in rw same now
    ]

    backup_mac :
        k.parse_mac l0.mac ≡ some l0.mac
        → not (text_eq (backup_of conf l0).mac []) ≡ true
        → k.parse_mac (backup_of conf l0).mac ≡ some (backup_of conf l0).mac
    unfolding backup_of
    backup_mac p g = let given : text_eq conf.mac [] ≡ false = ground arith in rw given p

    restore_backup-link :
        (fails : FileOp → Bool) (h h' : Host S)
        → k.parse_mac l0.mac ≡ some l0.mac
        → Ends k lawful marshal unmarshal json no_json path conf prev l0 has_mac has_mtu h
        → restore_backup k marshal unmarshal fails path h ≡ (ok tt, h')
        → k.link h'.kernel ≡ some l0
    unfolding restore_backup Ends IsUntouched
    restore_backup-link fails h h' p (inr (found, inl e)) r =
        let r' = rw (restore_backup, e) at r in let same : h' ≡ h = cc in rw same found
    restore_backup-link fails h h' p (inr (found, inr e)) r = elim (Bool-cases (fails read_file)) [
      | inl f ↦ let r' = rw (restore_backup, e, f) at r in absurd cc
      | inr f ↦
          let r' = rw (restore_backup, e, f, no_json) at r in
          let same : h' ≡ h = cc in rw same found
    ]
    restore_backup-link fails h h' p (inl kept) r = elim (Bool-cases (fails read_file)) [
      | inl f ↦ let saved = kept.saved in let r' = rw (restore_backup, saved, f) at r in absurd cc
      | inr f ↦
          let b = backup_of conf l0 in
          let now = restore_attributes-IsAt b h kept.now (backup_mac p) kept.found in
          let r' : forget k marshal unmarshal fails path (restore_attributes k b h) ≡ (ok tt, h') =
            rw (restore_backup, kept.saved, f, json b, kept.found) at r in
          forget-link fails (restore_attributes k b h) (restored b kept.now) h' now r'
          ∙ ap some kept.back
    ]

  module _ (marshal : Backup → Text) (unmarshal : Text → Option Backup)
      (json : (b : Backup) → unmarshal (marshal b) ≡ some b) (no_json : unmarshal [] ≡ none)
      (path if_name : Text) (conf : TuningConf) (l0 : Link) (has_mac : text_eq l0.mac [] ≡ false)
      (has_mtu : is_zero l0.mtu ≡ false) where
    cmd_add_state :
        (fails : FileOp → Bool) (h : Host S) (prev : PrevResult)
        → conf.prev_result ≡ some (ok prev)
        → (cmd_add k marshal unmarshal fails path if_name conf h).1
          ≡ (tune k marshal unmarshal fails path conf prev h).1
    unfolding cmd_add
    cmd_add_state fails h prev e =
        let result : Act TuningError (Host S) PrevResult =
          pure (record prev { interfaces = result_macs if_name conf prev.interfaces }) in
        simp (cmd_add, e)
          (elim (>>-cases (tune k marshal unmarshal fails path conf prev) result h) [
            | inl (u, o, q) ↦ ap (λ (c : Result TuningError PrevResult × Host S). c.1) q
            | inr (x, o, q) ↦ ap (λ (c : Result TuningError PrevResult × Host S). c.1) q
          ])

    cmd_add-Ends :
        (fails : FileOp → Bool) (h : Host S)
        → k.link h.kernel ≡ some l0
        → get path h.files ≡ none
        → (prev : PrevResult) × Ends k lawful marshal unmarshal json no_json path conf prev l0
            has_mac has_mtu
            (cmd_add k marshal unmarshal fails path if_name conf h).1
    unfolding cmd_add Ends IsUntouched
    cmd_add-Ends fails h found fresh = go conf.prev_result refl
      where
        none_yet : PrevResult
        none_yet = record { ips = []; interfaces = [] }

        go :
            (o : Option (Result TuningError PrevResult))
            → conf.prev_result ≡ o
            → (prev : PrevResult) × Ends k lawful marshal unmarshal json no_json path conf prev l0
                has_mac has_mtu
                (cmd_add k marshal unmarshal fails path if_name conf h).1
        go none e = simp (cmd_add, e) (none_yet, inr (found, inl fresh))
        go (some (err x)) e = simp (cmd_add, e) (none_yet, inr (found, inl fresh))
        go (some (ok prev)) e =
            let ends =
              tune-Ends k lawful marshal unmarshal json no_json path conf prev l0 has_mac has_mtu
                fails h found fresh in
            (prev, rw (cmd_add_state fails h prev e) ends)

    -- A restoration that returns no error, after an ADD that started with no backup and went however
    -- far, gives the link its attributes before the ADD, if its MAC address and MTU were not zero
    -- and the text of its address is parsed as itself.
    pub restore_backup-cmd_add :
        (fails fails' : FileOp → Bool) (h h' : Host S)
        → k.link h.kernel ≡ some l0
        → get path h.files ≡ none
        → k.parse_mac l0.mac ≡ some l0.mac
        → restore_backup k marshal unmarshal fails' path
            (cmd_add k marshal unmarshal fails path if_name conf h).1
          ≡ (ok tt, h')
        → k.link h'.kernel ≡ some l0
    restore_backup-cmd_add fails fails' h h' found fresh p r =
        let (prev, ends) = cmd_add-Ends fails h found fresh in
        restore_backup-link marshal unmarshal json no_json path conf prev l0 has_mac has_mtu fails'
          _ h' p ends r
