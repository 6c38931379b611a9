-- ===== src/HostLocal/Disk/Files.antt =====
-- The laws of the directory.
use plugins.Prelude.{
  ◌≡◌, refl, [], ◌∷◌, none, some, Text, text_eq, text_eq_iff, arith, if◌then◌else◌,
}
use plugins.HostLocal.Disk.{Dir, get_file, put_file, delete_file}

pub get_file-put_file :
    (m n d : Text) (dir : Dir)
    → get_file m (put_file n d dir) ≡ (if text_eq n m then some d else get_file m dir)
unfolding get_file put_file
get_file-put_file m n d [] = refl
get_file-put_file m n d ((k, e) ∷ dir) =
    ground (arith, text_eq_iff k n, text_eq_iff k m, text_eq_iff n m, get_file-put_file m n d dir)

pub get_file-delete_file :
    (m n : Text) (dir : Dir)
    → get_file m (delete_file n dir) ≡ (if text_eq n m then none else get_file m dir)
unfolding get_file delete_file
get_file-delete_file m n [] = ground arith
get_file-delete_file m n ((k, e) ∷ dir) =
    ground (arith, text_eq_iff k n, text_eq_iff k m, text_eq_iff n m, get_file-delete_file m n dir)
