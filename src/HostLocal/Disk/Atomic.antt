-- ===== src/HostLocal/Disk/Atomic.antt =====
-- A reservation that fails on the disk: what it leaves behind.
use plugins.Prelude.{◌≡◌, refl, [], ◌∷◌, Bool, true, false, none, err, Text, text_eq_self, arith}
use plugins.Net.{Ip}
use plugins.HostLocal.Types.{Error, io_failure}
use plugins.HostLocal.Disk.{
  Op, Format, Dir, open_file, write_string, close_file, remove_file, fails_write, get_file,
  put_file, delete_file, ip_file, last_file, owner, try_remove, reserve, is_reserved,
}
use plugins.HostLocal.Disk.Lawful.{last_differs}
use plugins.HostLocal.Disk.Files.{get_file-put_file}

pub delete_file_absent : (n : Text) (dir : Dir) → get_file n dir ≡ none → delete_file n dir ≡ dir
unfolding get_file delete_file
delete_file_absent n [] h = refl
delete_file_absent n ((k, e) ∷ dir) h = ground (arith, delete_file_absent n dir)

pub delete_file-put_file :
    (n d : Text) (dir : Dir) → get_file n dir ≡ none → delete_file n (put_file n d dir) ≡ dir
unfolding get_file put_file delete_file
delete_file-put_file n d [] h = ground (arith, text_eq_self n)
delete_file-put_file n d ((k, e) ∷ dir) h =
    ground (arith, text_eq_self n, delete_file-put_file n d dir)

module _ (fmt : Format) (fails : Op → Text → Bool) (id ifname : Text) (ip : Ip) (range_id : Text)
    (dir : Dir) where
  -- A reservation that returns an error changes nothing, where the removal of its file and the
  -- write of the last address do not fail.
  pub reserve-err_unchanged :
      fails remove_file (ip_file fmt fails ip) ≡ false
      → fails_write fmt fails (last_file fmt fails range_id) ≡ false
      → {e : Error} {dir' : Dir} → reserve fmt fails id ifname ip range_id dir ≡ (err e, dir')
      → dir' ≡ dir
  unfolding reserve try_remove
  reserve-err_unchanged works writes {e} {dir'} h = ground (
    arith,
    delete_file-put_file (ip_file fmt fails ip) [] dir,
    delete_file-put_file (ip_file fmt fails ip) (owner fmt fails id ifname) dir,
  )

  -- Where only the write of the last address fails, the call returns an error and the address stays
  -- reserved.
  pub reserve-leaks :
      get_file (ip_file fmt fails ip) dir ≡ none
      → fails open_file (ip_file fmt fails ip) ≡ false
      → fails write_string (ip_file fmt fails ip) ≡ false
      → fails close_file (ip_file fmt fails ip) ≡ false
      → fails_write fmt fails (last_file fmt fails range_id) ≡ true
      → ((reserve fmt fails id ifname ip range_id dir).0 ≡ err io_failure)
        × (is_reserved fmt fails (reserve fmt fails id ifname ip range_id dir).1 ip ≡ true)
  unfolding reserve is_reserved
  reserve-leaks absent opens writes closes last = ground (
    arith,
    get_file-put_file (ip_file fmt fails ip) (ip_file fmt fails ip) (owner fmt fails id ifname) dir,
    get_file-put_file (ip_file fmt fails ip) (last_file fmt fails range_id) []
        (put_file (ip_file fmt fails ip) (owner fmt fails id ifname) dir),
    last_differs fmt fails ip range_id,
    text_eq_self (ip_file fmt fails ip),
  )
