-- ===== src/Sysctl.antt =====
-- pkg/utils/sysctl/sysctl_linux.go: values of /proc/sys.
--
-- The files, with the errors of their calls, and `filepath.Join` with the directory are parameters.
use plugins.Prelude.{
  ℕ, ◌≡◌, refl, List, [], ◌∷◌, Bool, true, false, Result, ok, err, Text, map, ◌==◌, if◌then◌else◌,
  arith, Bool-cases, inl, inr,
}
use plugins.Prelude.Effects.{Act, fail, ◌>>=◌, ◌>>◌}

pub data SysctlError : Type 0 where
  too_many_parameters file_failed slice_panic : SysctlError

pub record Files (S : Type 0) : Type 0 where
  pub read_file : Text → Act SysctlError S Text
  pub write_file : Text → Text → Act SysctlError S (Unit {0})
  pub path_of : Text → Text

-- whether the first separator of a name is a dot
unfoldable pub uses_dots : Text → Bool
uses_dots [] = false
uses_dots (c ∷ name) =
    let rest = uses_dots name in if c == b'.' then true else if c == b'/' then false else rest

-- `strings.NewReplacer(".", "/", "/", ".")`
abbrev pub interchanged : ℕ → ℕ
interchanged c = if c == b'.' then b'/' else if c == b'/' then b'.' else c

unfoldable pub to_normal_name : Text → Text
to_normal_name name = if uses_dots name then map interchanged name else name

-- `data[:len(data)-1]`, which panics for no data
unfoldable pub without_last : Text → Result SysctlError Text
without_last [] = err slice_panic
without_last (c ∷ []) = ok []
without_last (c ∷ d ∷ data_left) = elim (without_last (d ∷ data_left)) [
  | err e ↦ err e
  | ok s ↦ ok (c ∷ s)
]

module _ {S : Type 0} (files : Files S) where
  unfoldable pub get_sysctl : Text → Act SysctlError S Text
  get_sysctl name = files.read_file (files.path_of (to_normal_name name)) >>= λ content s.
      (without_last content, s)

  unfoldable pub set_sysctl : Text → Text → Act SysctlError S Text
  set_sysctl name value =
      files.write_file (files.path_of (to_normal_name name)) value >> get_sysctl name

  unfoldable pub sysctl : Text → List Text → Act SysctlError S Text
  sysctl name [] = get_sysctl name
  sysctl name (value ∷ []) = set_sysctl name value
  sysctl name (value ∷ other ∷ params) = fail too_many_parameters

uses_dots-interchanged :
    (name : Text) → uses_dots name ≡ true → uses_dots (map interchanged name) ≡ false
unfolding uses_dots
uses_dots-interchanged [] h = ground arith
uses_dots-interchanged (c ∷ name) h = ground (arith, uses_dots-interchanged name)

-- A normal name is its own normal name.
pub to_normal_name-to_normal_name :
    (name : Text) → to_normal_name (to_normal_name name) ≡ to_normal_name name
unfolding to_normal_name
to_normal_name-to_normal_name name = elim (Bool-cases (uses_dots name)) [
  | inl e ↦ rw (to_normal_name, e, uses_dots-interchanged name e) refl
  | inr e ↦ rw (to_normal_name, e, e) refl
]
