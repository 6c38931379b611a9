-- ===== src/Portmap/Split.antt =====
-- What `splitPortList`, `groupByProto` and `trimComment` of plugins/meta/portmap/utils.go keep.
use plugins.Prelude.{
  ℕ, zero, suc, ◌+◌, ◌≤◌, ◌<◌, ◌≡◌, ◌∙◌, ap, refl, List, [], ◌∷◌, ◌++◌, length, take, All, ◌⊎◌, inl,
  inr, length-append, ◌==◌, arith, Text, text, Bool-cases, leb,
}
use mathlib.Core.List.{append_assoc}
use plugins.Portmap.Ports.{split_onto, trim_comment}

pub concat : List (List ℕ) → List ℕ
concat [] = []
concat (g ∷ gs) = g ++ concat gs

-- One `multiport` match takes between one and fifteen ports.
abbrev pub IsGroup : List ℕ → Type 0
IsGroup g = (1 ≤ length g) × (length g ≤ 15)

-- With fewer than 15 ports in the open group, the groups list the open group and the ports in
-- their order, each port once, and no group is empty or has more than 15 ports.
pub split_onto-groups :
    (acc ports : List ℕ)
    → length acc < 15
    → (concat (split_onto acc ports) ≡ acc ++ ports) × All IsGroup (split_onto acc ports)
unfolding split_onto concat
split_onto-groups [] [] h = (refl, tt)
split_onto-groups (a ∷ rest) [] h = (refl, ((omega (arith, h), omega (arith, h)), tt))
split_onto-groups acc (p ∷ ports) h =
    let n = length-append acc (p ∷ []) in
    elim (Bool-cases (length (acc ++ p ∷ []) == 15)) [
      | inl e ↦
          let ih = split_onto-groups [] ports (omega arith) in
          rw (e, ih.0) (append_assoc acc (p ∷ []) ports, ((omega (arith, n), ground arith), ih.1))
      | inr e ↦
          let ih = split_onto-groups (acc ++ p ∷ []) ports (ground arith) in
          rw e (ih.0 ∙ append_assoc acc (p ∷ []) ports, ih.1)
    ]

length-take : (n : ℕ) (xs : List ℕ) → n ≤ length xs → length (take n xs) ≡ n
length-take zero xs h = refl
length-take (suc n) [] h = omega (arith, h)
length-take (suc n) (x ∷ xs) h = ap suc (length-take n xs (omega (arith, h)))

-- A comment of at most 255 bytes is kept, and a longer one becomes one of 256 bytes.
pub length-trim_comment :
    (val : Text)
    → ((length val ≤ 255) × (trim_comment val ≡ val))
      ⊎ ((255 < length val) × (length (trim_comment val) ≡ 256))
unfolding trim_comment
length-trim_comment val = elim (Bool-cases (leb (length val) 255)) [
  | inl e ↦ inl (ground arith, rw e refl)
  | inr e ↦ inr (
    ground arith,
    rw e (
        length-append (take 253 val) (text "...")
        ∙ ap (λ k. k + 3) (length-take 253 val (ground arith))),
  )
]
