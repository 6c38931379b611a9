-- ===== src/HostLocal/Disk/Release.antt =====
-- What releasing a container's addresses leaves.
use plugins.Prelude.{
  ◌≡◌, ◌⊎◌, refl, sym, ◌∙◌, [], ◌∷◌, Bool, true, false, Option, none, some, ok, Text, text_eq,
  text_eq_self, arith, Bool-cases, inl, inr, trim_space, All,
}
use plugins.Net.{Ip}
use plugins.HostLocal.Disk.{
  Format, Dir, read_file, remove_file, get_file, put_file, ip_file, last_file, owner, holds,
  reserve, is_reserved, find_by_key, find_by_id, Op, release_by_key, release_by_id,
}
use plugins.HostLocal.Disk.Lawful.{last_differs}

module _ (fmt : Format) (fails : Op → Text → Bool) where
  -- Where no removal fails, no file of the owner is left.
  find_by_key-release_by_key :
      ((n : Text) → fails remove_file n ≡ false)
      → (match : Text) (dir : Dir)
      → find_by_key fmt fails match (release_by_key fmt fails match dir).1 ≡ false
  unfolding find_by_key release_by_key
  find_by_key-release_by_key works match [] = refl
  find_by_key-release_by_key works match ((n, d) ∷ dir) =
      ground (arith, works n, find_by_key-release_by_key works match dir)

  -- A file is found again exactly if it was found and nothing of the owner was removed.
  found-release_by_key :
      ((n : Text) → fails remove_file n ≡ false)
      → (match : Text) (dir : Dir)
      → (release_by_key fmt fails match dir).0 ≡ find_by_key fmt fails match dir
  unfolding find_by_key release_by_key
  found-release_by_key works match [] = refl
  found-release_by_key works match ((n, d) ∷ dir) =
      ground (arith, works n, found-release_by_key works match dir)

  find_by_key-release_by_key_mono :
      (match match' : Text) (dir : Dir)
      → find_by_key fmt fails match dir ≡ false
      → find_by_key fmt fails match (release_by_key fmt fails match' dir).1 ≡ false
  unfolding find_by_key release_by_key
  find_by_key-release_by_key_mono match match' [] h = refl
  find_by_key-release_by_key_mono match match' ((n, d) ∷ dir) h =
      ground (arith, find_by_key-release_by_key_mono match match' dir)

  -- A file whose content is another's stays as it is.
  get_file-release_by_key :
      (match name d : Text) (dir : Dir)
      → get_file name dir ≡ some d
      → text_eq (trim_space d) match ≡ false
      → get_file name (release_by_key fmt fails match dir).1 ≡ some d
  unfolding get_file release_by_key
  get_file-release_by_key match name d [] h k = cc
  get_file-release_by_key match name d ((n, e) ∷ dir) h k =
      ground (arith, get_file-release_by_key match name d dir)

  get_file-release_by_key-none :
      (match name : Text) (dir : Dir)
      → get_file name dir ≡ none
      → get_file name (release_by_key fmt fails match dir).1 ≡ none
  unfolding get_file release_by_key
  get_file-release_by_key-none match name [] h = refl
  get_file-release_by_key-none match name ((n, e) ∷ dir) h =
      ground (arith, get_file-release_by_key-none match name dir)

  module _ (id ifname : Text) (dir : Dir) where
    abbrev released : Dir
    released = (release_by_id fmt fails id ifname dir).1

    -- Where no removal fails, no file of the container and interface is left after a release; if
    -- there was none, no file in the older format is left either.
    pub find_by_id-release_by_id :
        ((n : Text) → fails remove_file n ≡ false)
        → (find_by_key fmt fails (owner fmt fails id ifname) released ≡ false)
          × ((find_by_key fmt fails (owner fmt fails id ifname) dir ≡ true)
              ⊎ (find_by_id fmt fails id ifname released ≡ false))
    unfolding release_by_id find_by_id
    find_by_id-release_by_id works = ground (
      arith,
      find_by_key-release_by_key works (owner fmt fails id ifname) dir,
      found-release_by_key works (owner fmt fails id ifname) dir,
      find_by_key-release_by_key works (trim_space id)
          (release_by_key fmt fails (owner fmt fails id ifname) dir).1,
      find_by_key-release_by_key_mono (owner fmt fails id ifname) (trim_space id)
          (release_by_key fmt fails (owner fmt fails id ifname) dir).1,
    )

    -- A release keeps the file of every other owner, whatever system calls fail.
    pub get_file-release_by_id :
        (name d : Text)
        → get_file name dir ≡ some d
        → text_eq (trim_space d) (owner fmt fails id ifname) ≡ false
        → text_eq (trim_space d) (trim_space id) ≡ false
        → get_file name released ≡ some d
    unfolding release_by_id
    get_file-release_by_id name d h k l = ground (
      arith,
      get_file-release_by_key (owner fmt fails id ifname) name d dir,
      get_file-release_by_key (trim_space id) name d
          (release_by_key fmt fails (owner fmt fails id ifname) dir).1,
    )

  -- Every file of a name has the content of an owner.
  abbrev IsOwned : Text → Text → Dir → Type 0
  IsOwned match name = All (λ e. text_eq e.0 name ≡ true → holds fmt fails match e.0 e.1 ≡ true)

  module _ (match name : Text) where
    IsOwned-put_file :
        (d : Text) (dir : Dir)
        → get_file name dir ≡ none
        → holds fmt fails match name d ≡ true
        → IsOwned match name (put_file name d dir)
    unfolding get_file put_file
    IsOwned-put_file d [] h k = ((λ _. k), tt)
    IsOwned-put_file d ((n, e) ∷ dir) h k = elim (Bool-cases (text_eq n name)) [
      | inl t ↦ let h' : ◌≡◌ {A = Option Text} (some e) none = rw t at h in cc
      | inr f ↦
          rw f ((λ t. let c : true ≡ false = sym t ∙ f in cc), IsOwned-put_file d dir (rw f at h) k)
    ]

    IsOwned-put_file_ne :
        (other d : Text) (dir : Dir)
        → text_eq other name ≡ false
        → IsOwned match name dir
        → IsOwned match name (put_file other d dir)
    unfolding put_file
    IsOwned-put_file_ne other d [] h k = ((λ e. cc), tt)
    IsOwned-put_file_ne other d ((n, e) ∷ dir) h k = elim (Bool-cases (text_eq n other)) [
      | inl t ↦ rw t ((λ c. let c' : true ≡ false = sym c ∙ h in cc), k.1)
      | inr f ↦ rw f (k.0, IsOwned-put_file_ne other d dir h k.1)
    ]

    get_file-released :
        ((n : Text) → fails remove_file n ≡ false)
        → (dir : Dir) → IsOwned match name dir
        → get_file name (release_by_key fmt fails match dir).1 ≡ none
    unfolding get_file release_by_key
    get_file-released works [] h = refl
    get_file-released works ((n, e) ∷ dir) h =
        ground (arith, works n, h.0, get_file-released works dir h.1)

  module _ (id ifname : Text) (ip : Ip) (range_id : Text) (dir dir' : Dir) where
    abbrev fname : Text
    fname = ip_file fmt fails ip

    abbrev mine : Text
    mine = owner fmt fails id ifname

    reserved_dir :
        reserve fmt fails id ifname ip range_id dir ≡ (ok true, dir')
        → (get_file fname dir ≡ none)
          × (dir'
              ≡ put_file
                  (last_file fmt fails range_id)
                  (fmt.ip_string ip)
                  (put_file fname mine dir))
    unfolding reserve
    reserved_dir h = ground arith

    reserved-IsOwned :
        reserve fmt fails id ifname ip range_id dir ≡ (ok true, dir')
        → holds fmt fails mine fname mine ≡ true
        → IsOwned mine fname dir'
    reserved-IsOwned h k =
        let (free, e) = reserved_dir h in
        rw e (
          IsOwned-put_file_ne mine fname (last_file fmt fails range_id) (fmt.ip_string ip)
            (put_file fname mine dir) (last_differs fmt fails ip range_id)
            (IsOwned-put_file mine fname mine dir free k))

    -- A reservation followed by a release of the same container and interface frees the address,
    -- where the file can be read, no removal fails and trimming keeps the content that was written.
    pub reserve-release_by_id :
        reserve fmt fails id ifname ip range_id dir ≡ (ok true, dir')
        → fails read_file fname ≡ false
        → ((n : Text) → fails remove_file n ≡ false)
        → trim_space mine ≡ mine
        → is_reserved fmt fails (release_by_id fmt fails id ifname dir').1 ip ≡ false
    unfolding is_reserved release_by_id
    reserve-release_by_id h readable works trimmed =
        let held : holds fmt fails mine fname mine ≡ true =
          rw (readable, trimmed) (text_eq_self mine) in
        ground (
          arith,
          get_file-released mine fname works dir' (reserved-IsOwned h held),
          get_file-release_by_key-none (trim_space id) fname (release_by_key fmt fails mine dir').1,
        )
