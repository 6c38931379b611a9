-- ===== src/Tuning/Sysctls.antt =====
-- The files that the sysctls of plugins/meta/tuning are written to.
use plugins.Prelude.{
  ◌≡◌, refl, [], ◌∷◌, ◌++◌, true, false, Option, none, some, Text, text, if◌then◌else◌, arith, ◌==◌,
  All, All-append, Bool-cases, inl, inr,
}
use plugins.Prelude.Effects.{each-Keeps}
use plugins.Tuning.{Kernel, Pairs, squeeze, slashed, sysctl_path, has_prefix, net_prefix}
use plugins.Tuning.Commands.{write_sysctl, write_sysctls}

abbrev pub IsPlain : Text → Type 0
IsPlain = All (λ c. (c == b'.') ≡ false)

squeeze-IsPlain : (s : Text) → IsPlain s → IsPlain (squeeze s)
unfolding squeeze
squeeze-IsPlain [] h = tt
squeeze-IsPlain (c ∷ s) h = joined (squeeze s) (squeeze-IsPlain s h.1)
  where
    joined :
        (rest : Text)
        → IsPlain rest
        → IsPlain (
            if c == b'/'
            then elim rest [ [] ↦ [] | d ∷ ds ↦ if d == b'/' then d ∷ ds else c ∷ d ∷ ds ]
            else c ∷ rest)
    joined [] k = elim (Bool-cases (c == b'/')) [ inl e ↦ rw e tt | inr e ↦ rw e (h.0, tt) ]
    joined (d ∷ ds) k = elim (Bool-cases (c == b'/')) [
      | inl e ↦ elim (Bool-cases (d == b'/')) [ inl f ↦ rw (e, f) k | inr f ↦ rw (e, f) (h.0, k) ]
      | inr e ↦ rw e (h.0, k)
    ]

slashed-IsPlain : (s : Text) → IsPlain (slashed s)
slashed-IsPlain [] = tt
slashed-IsPlain (c ∷ s) = (ground arith, slashed-IsPlain s)

sysctl_path-IsPlain : (key : Text) → IsPlain (sysctl_path key)
unfolding sysctl_path
sysctl_path-IsPlain key = squeeze-IsPlain (text "/proc/sys/" ++ slashed key) (
    All-append (λ c. (c == b'.') ≡ false) (text "/proc/sys/") (slashed key)
      (refl, (refl, (refl, (refl, (refl, (refl, (refl, (refl, (refl, (refl, tt))))))))))
      (slashed-IsPlain key))

-- A file below /proc/sys/net, by a path in which no part leads up.
abbrev pub IsNetFile : Text → Type 0
IsNetFile file = (has_prefix net_prefix file ≡ true) × IsPlain file

module _ {S : Type 0} (k : Kernel S) (P : S → Type 0)
    (kept : (file value : Text) (s : S)
      → IsNetFile file
      → P s
      → P (k.write_file file value s).1) where
  write_sysctl-Keeps : (kv : Text × Text) (s : S) → P s → P (write_sysctl k kv s).1
  unfolding write_sysctl
  write_sysctl-Keeps kv s h = elim (Bool-cases (has_prefix net_prefix (sysctl_path kv.0))) [
    | inl e ↦ rw (write_sysctl, e) (kept (sysctl_path kv.0) kv.1 s (e, sysctl_path-IsPlain kv.0) h)
    | inr e ↦ rw (write_sysctl, e) h
  ]

  -- Whatever the keys are, the sysctls are written only to files below /proc/sys/net: a property of
  -- the kernel that writing these files keeps is kept by the loop of `cmdAdd`.
  pub write_sysctls-Keeps : (kvs : Option Pairs) (s : S) → P s → P (write_sysctls k kvs s).1
  unfolding write_sysctls
  write_sysctls-Keeps none s h = h
  write_sysctls-Keeps (some kvs) s h = each-Keeps P (write_sysctl k) write_sysctl-Keeps kvs s h
