-- ===== src/HostLocal/Disk/Lawful.antt =====
-- The disk store keeps what the allocator relies on, whatever system calls fail.
use plugins.Prelude.{
  ◌≡◌, sym, ◌∙◌, [], Bool, true, false, ok, err, Text, text_eq, text_eq-eq, text_eq_self, arith,
  Bool-cases, inl, inr,
}
use plugins.Net.{Ip, equal}
use plugins.HostLocal.Types.{Error, io_failure}
use plugins.HostLocal.Store.{IsLawful}
use plugins.HostLocal.Disk.{
  Op, Format, Dir, get_file, put_file, ip_file, last_file, owner, try_remove, reserve, is_reserved,
  disk_store,
}
use plugins.HostLocal.Disk.Files.{get_file-put_file, get_file-delete_file}

module _ (fmt : Format) (fails : Op → Text → Bool) where
  names_differ :
      (a b : Ip) → equal a b ≡ false → text_eq (ip_file fmt fails a) (ip_file fmt fails b) ≡ false
  names_differ a b h = elim (Bool-cases (text_eq (ip_file fmt fails a) (ip_file fmt fails b))) [
    | inr e ↦ e
    | inl e ↦ cc (sym (fmt.ip_string_inj a b (text_eq-eq _ _ e)) ∙ h)
  ]

  pub last_differs :
      (a : Ip) (r : Text) → text_eq (last_file fmt fails r) (ip_file fmt fails a) ≡ false
  last_differs a r = elim (Bool-cases (text_eq (last_file fmt fails r) (ip_file fmt fails a))) [
    | inr e ↦ e
    | inl e ↦ absurd (fmt.ip_string_name a r (sym (text_eq-eq _ _ e)))
  ]

  module _ (id ifname : Text) (ip : Ip) (range_id : Text) (dir : Dir) where
    abbrev fname : Text
    fname = ip_file fmt fails ip

    abbrev written : Dir
    written = put_file fname (owner fmt fails id ifname) dir

    reserve_free :
        {dir' : Dir}
        → reserve fmt fails id ifname ip range_id dir ≡ (ok true, dir')
        → (is_reserved fmt fails dir ip ≡ false) × (is_reserved fmt fails dir' ip ≡ true)
    unfolding reserve is_reserved
    reserve_free {dir'} h = ground (
      arith,
      get_file-put_file fname (last_file fmt fails range_id) (fmt.ip_string ip) written,
      get_file-put_file fname fname (owner fmt fails id ifname) dir,
      last_differs ip range_id,
      text_eq_self fname,
    )

    reserve_taken :
        {dir' : Dir}
        → reserve fmt fails id ifname ip range_id dir ≡ (ok false, dir')
        → (is_reserved fmt fails dir ip ≡ true) × (dir' ≡ dir)
    unfolding reserve is_reserved
    reserve_taken {dir'} h = ground arith

    reserve_error :
        {e : Error} {dir' : Dir}
        → reserve fmt fails id ifname ip range_id dir ≡ (err e, dir')
        → e ≡ io_failure
    unfolding reserve
    reserve_error {e} {dir'} h = ground arith

    -- Every branch leaves the other names alone but the one for the last address.
    get_file-reserve :
        (m : Text)
        → text_eq (ip_file fmt fails ip) m ≡ false
        → text_eq (last_file fmt fails range_id) m ≡ false
        → get_file m (reserve fmt fails id ifname ip range_id dir).1 ≡ get_file m dir
    unfolding reserve try_remove
    get_file-reserve m h k = ground (
      arith,
      get_file-put_file m fname [] dir,
      get_file-put_file m fname (owner fmt fails id ifname) dir,
      get_file-delete_file m fname (put_file fname [] dir),
      get_file-delete_file m fname written,
      get_file-put_file m (last_file fmt fails range_id) (fmt.ip_string ip) written,
      get_file-put_file m (last_file fmt fails range_id) [] written,
    )

    reserve_others :
        (other : Ip)
        → equal ip other ≡ false
        → is_reserved fmt fails (reserve fmt fails id ifname ip range_id dir).1 other
          ≡ is_reserved fmt fails dir other
    unfolding is_reserved
    reserve_others other ne = rw (
      get_file-reserve (ip_file fmt fails other) (names_differ ip other ne)
          (last_differs other range_id),
      is_reserved,
    )

  -- The disk store implements the interface, whatever system calls fail: the addresses that have a
  -- file are the reserved ones.
  pub disk_store-IsLawful : IsLawful (disk_store fmt fails) (is_reserved fmt fails)
  disk_store-IsLawful = record {
    reserve_free = λ id ifname ip r s {s'} h. reserve_free id ifname ip r s h;
    reserve_taken = λ id ifname ip r s {s'} h. reserve_taken id ifname ip r s h;
    reserve_others = reserve_others;
    reserve_error = λ id ifname ip r s {e} {s'} h. reserve_error id ifname ip r s h;
  }
