-- ===== src/HostLocal/Commands/OnDisk.antt =====
-- The commands over the disk's store.
use plugins.Prelude.{
  ℕ, ◌≡◌, refl, List, [], ◌∷◌, Bool, true, false, Result, ok, err, Text, text_eq, trim_space, All,
  arith,
}
use plugins.Net.{Ip}
use plugins.HostLocal.Types.{Error, RangeSet}
use plugins.HostLocal.Disk.{
  Op, Format, Dir, remove_file, read_file, fails_write, reserve, owner, find_by_key, release_by_id,
  disk_store,
}
use plugins.HostLocal.Disk.Atomic.{reserve-err_unchanged}
use plugins.HostLocal.Disk.Lawful.{disk_store-IsLawful}
use plugins.HostLocal.Disk.Release.{find_by_id-release_by_id}
use plugins.HostLocal.Commands.{Requests, cmd_add, del_sets, cmd_del}
use plugins.HostLocal.Commands.Failure.{KeepsOnError, KeepsUnlessReserved, cmd_add-KeepsOnError}

-- Where every file can be read, a text that is not found is the content of no file.
find_by_key-none :
    (fmt : Format) (fails : Op → Text → Bool)
    → ((n : Text) → fails read_file n ≡ false)
    → (match : Text) (dir : Dir) → find_by_key fmt fails match dir ≡ false
    → All (λ e. text_eq (trim_space e.1) match ≡ false) dir
unfolding find_by_key
find_by_key-none fmt fails reads match [] h = tt
find_by_key-none fmt fails reads match ((n, d) ∷ dir) h =
    let (other, none_left) : (text_eq (trim_space d) match ≡ false)
        × (find_by_key fmt fails match dir ≡ false) =
      ground (arith, reads n) in
    (other, find_by_key-none fmt fails reads match dir none_left)

module _ (fmt : Format) (fails : Op → Text → Bool) (id ifname : Text) where
  -- No file, whether it can be read or not, has what a reservation of the container and interface
  -- writes into its own, but for white space around it.
  abbrev pub IsAbsent : Dir → Type 0
  IsAbsent = All (λ e. text_eq (trim_space e.1) (trim_space (owner fmt fails id ifname)) ≡ false)

  module _ (reads : (n : Text) → fails read_file n ≡ false)
      (works : (n : Text) → fails remove_file n ≡ false)
      (trimmed : trim_space (owner fmt fails id ifname) ≡ owner fmt fails id ifname) where
    pub release-IsAbsent : (dir : Dir) → IsAbsent (release_by_id fmt fails id ifname dir).1
    release-IsAbsent dir = rw trimmed (
        find_by_key-none fmt fails reads (owner fmt fails id ifname) _
          (find_by_id-release_by_id fmt fails id ifname dir works).0)

    release_by_id-ok : (dir : Dir) → (release_by_id fmt fails id ifname dir).0 ≡ ok tt
    unfolding release_by_id
    release_by_id-ok dir = ground arith

    del_sets-next :
        (shuffle : ℕ → Requests → Requests) (rs : RangeSet) (rest : List RangeSet) (dir : Dir)
        → del_sets (disk_store fmt fails) id ifname shuffle (rs ∷ rest) dir
          ≡ del_sets
              (disk_store fmt fails)
              id
              ifname
              shuffle
              rest
              (release_by_id fmt fails id ifname dir).1
    unfolding del_sets
    del_sets-next shuffle rs rest dir = rw (del_sets, release_by_id-ok dir) refl

    del_sets-ok :
        (shuffle : ℕ → Requests → Requests) (sets : List RangeSet) (dir : Dir)
        → IsAbsent dir
        → ((del_sets (disk_store fmt fails) id ifname shuffle sets dir).0 ≡ false)
          × IsAbsent (del_sets (disk_store fmt fails) id ifname shuffle sets dir).1
    unfolding del_sets
    del_sets-ok shuffle [] dir h = (refl, h)
    del_sets-ok shuffle (rs ∷ rest) dir h =
        rw (del_sets-next shuffle rs rest dir) (
          del_sets-ok shuffle rest (release_by_id fmt fails id ifname dir).1 (release-IsAbsent dir))

    -- A DEL over at least one range set succeeds and leaves no file with the content of a
    -- reservation of the container and interface, where no reading and no removal of a file fails
    -- and that content has no white space around it.
    pub cmd_del-IsAbsent :
        (shuffle : ℕ → Requests → Requests) (rs : RangeSet) (sets : List RangeSet) (dir : Dir)
        → ((cmd_del (disk_store fmt fails) id ifname shuffle (rs ∷ sets) dir).0 ≡ ok tt)
          × IsAbsent (cmd_del (disk_store fmt fails) id ifname shuffle (rs ∷ sets) dir).1
    unfolding cmd_del
    cmd_del-IsAbsent shuffle rs sets dir =
        let sets' = rs ∷ sets in
        let (deleted, absent) : ((del_sets (disk_store fmt fails) id ifname shuffle sets' dir).0
              ≡ false)
            × IsAbsent (del_sets (disk_store fmt fails) id ifname shuffle sets' dir).1 =
          rw (del_sets-next shuffle rs sets dir) (
            del_sets-ok shuffle sets (release_by_id fmt fails id ifname dir).1
              (release-IsAbsent dir)) in
        rw (cmd_del, deleted) (refl, absent)

    module _ (writes : (n : Text) → fails_write fmt fails n ≡ false) where
      pub reserve-KeepsAbsent :
          (ip : Ip) (range_id : Text) (dir : Dir)
          → IsAbsent dir
          → KeepsUnlessReserved IsAbsent (reserve fmt fails id ifname ip range_id dir)
      reserve-KeepsAbsent ip range_id dir h = go (reserve fmt fails id ifname ip range_id dir) refl
        where
          go :
              (res : Result Error Bool × Dir)
              → reserve fmt fails id ifname ip range_id dir ≡ res
              → KeepsUnlessReserved IsAbsent res
          go (ok true, dir') e = tt
          go (ok false, dir') e =
              let t = (disk_store-IsLawful fmt fails).reserve_taken id ifname ip range_id dir e in
              rw t.1 h
          go (err x, dir') e =
              rw (reserve-err_unchanged fmt fails id ifname ip range_id dir (works _) (writes _) e)
                h

      -- An ADD that fails leaves no file with the content of a reservation of the container and
      -- interface, if there was none before, where no reading and no removal of a file and no write
      -- of a last address fails and that content has no white space around it.
      pub cmd_add-IsAbsent :
          (shuffle : ℕ → Requests → Requests) (sets : List RangeSet) (ip_args : List Ip) (dir : Dir)
          → IsAbsent dir
          → KeepsOnError IsAbsent
              (cmd_add (disk_store fmt fails) id ifname shuffle fmt.ip_string sets ip_args dir)
      cmd_add-IsAbsent shuffle sets ip_args dir h =
          cmd_add-KeepsOnError IsAbsent (disk_store fmt fails) id ifname shuffle reserve-KeepsAbsent
            release-IsAbsent fmt.ip_string sets ip_args dir h
