-- ===== src/Cidr/Bytes.antt =====
-- Big-endian byte lists: the laws of `set_bytes` and `int_bytes`, and increment by ripple carry.
use plugins.Prelude.{
  ℕ, zero, suc, ◌+◌, ◌*◌, ◌/◌, ◌%◌, ◌≤◌, ◌<◌, ◌≡◌, refl, ap, ◌∙◌, sym, inl, inr, List, [], ◌∷◌,
  ◌++◌, ◌==◌, arith, Bool-cases, ==_iff,
}
use mathlib.Core.List.{append-nil}
use plugins.Net.Facts.{IsBytes}
use plugins.Cidr.{set_bytes, bytes_onto, int_bytes}

abbrev pub HasLead : List ℕ → Type 0
HasLead [] = ⊥
HasLead (b ∷ bs) = 0 < b

pub set_bytes-int_bytes_onto :
    (f n : ℕ) (acc : List ℕ) → n ≤ f → set_bytes 0 (bytes_onto f n acc) ≡ set_bytes n acc
unfolding set_bytes bytes_onto
set_bytes-int_bytes_onto zero zero acc h = refl
set_bytes-int_bytes_onto zero (suc n) acc h = absurd (omega arith)
set_bytes-int_bytes_onto (suc f) n acc h = elim (Bool-cases (n == 0)) [
  | inl e ↦ let z : n ≡ 0 = (==_iff n 0).0 e in rw (e, z)
  | inr e ↦
      let d : n / 256 * 256 + n % 256 ≡ n = omega arith in
      rw e (
        set_bytes-int_bytes_onto f (n / 256) (n % 256 ∷ acc) (ground arith)
        ∙ ap (λ k. set_bytes k acc) d)
]

-- The value of the bytes of a number is the number.
pub set_bytes-int_bytes : (n : ℕ) → set_bytes 0 (int_bytes n) ≡ n
unfolding int_bytes set_bytes
set_bytes-int_bytes n = set_bytes-int_bytes_onto n n [] (omega arith)

bytes_onto_fuel :
    (f g n : ℕ) (acc : List ℕ) → n ≤ f → n ≤ g → bytes_onto f n acc ≡ bytes_onto g n acc
unfolding bytes_onto
bytes_onto_fuel zero zero n acc h k = refl
bytes_onto_fuel zero (suc g) n acc h k = ground arith
bytes_onto_fuel (suc f) zero n acc h k = ground arith
bytes_onto_fuel (suc f) (suc g) n acc h k =
    ground (arith, bytes_onto_fuel f g (n / 256) (n % 256 ∷ acc))

bytes_onto_step :
    (f b n : ℕ) (acc : List ℕ)
    → 0 < n * 256 + b
    → b < 256
    → n * 256 + b ≤ f
    → bytes_onto f (n * 256 + b) acc ≡ bytes_onto f n (b ∷ acc)
unfolding bytes_onto
bytes_onto_step zero b n acc p h k = absurd (omega arith)
bytes_onto_step (suc f) b n acc p h k =
    let q : (n * 256 + b) / 256 ≡ n = omega arith in
    let r : (n * 256 + b) % 256 ≡ b = omega arith in
    elim (Bool-cases (n * 256 + b == 0)) [
      | inl e ↦ absurd (ground arith)
      | inr e ↦ rw (e, q, r) (bytes_onto_fuel f (suc f) n (b ∷ acc) (omega arith) (omega arith))
    ]

le-set_bytes : (n : ℕ) (bs : List ℕ) → n ≤ set_bytes n bs
unfolding set_bytes
le-set_bytes n [] = omega arith
le-set_bytes n (b ∷ bs) = omega (arith, le-set_bytes (n * 256 + b) bs)

bytes_onto-set_bytes :
    (f n : ℕ) (bs acc : List ℕ)
    → 0 < n
    → IsBytes bs
    → set_bytes n bs ≤ f
    → bytes_onto f (set_bytes n bs) acc ≡ bytes_onto f n (bs ++ acc)
unfolding set_bytes
bytes_onto-set_bytes f n [] acc p h k = refl
bytes_onto-set_bytes f n (b ∷ bs) acc p h k =
    bytes_onto-set_bytes f (n * 256 + b) bs acc (omega arith) h.1 k
    ∙ bytes_onto_step f b n (bs ++ acc) (omega arith) h.0
        (omega (arith, le-set_bytes (n * 256 + b) bs))

-- A byte list that is not empty and has no leading zero is the bytes of its value.
pub int_bytes-set_bytes : (bs : List ℕ) → IsBytes bs → HasLead bs → int_bytes (set_bytes 0 bs) ≡ bs
unfolding int_bytes set_bytes bytes_onto
int_bytes-set_bytes [] h k = elim k [ ]
int_bytes-set_bytes (b ∷ bs) h k =
    let n = 0 * 256 + b in
    let v = set_bytes n bs in
    let c : n ≤ v = le-set_bytes n bs in
    bytes_onto-set_bytes v n bs [] (omega arith) h.1 (omega arith)
    ∙ bytes_onto_step v b 0 (bs ++ []) (omega arith) h.0 c
    ∙ bytes_onto_fuel v 0 0 (b ∷ bs ++ []) (omega arith) (omega arith)
    ∙ ap (◌∷◌ b) (append-nil bs)

pub set_bytes_inj :
    (as' bs : List ℕ)
    → IsBytes as'
    → HasLead as'
    → IsBytes bs
    → HasLead bs
    → set_bytes 0 as' ≡ set_bytes 0 bs
    → as' ≡ bs
set_bytes_inj as' bs ha ka hb kb e =
    sym (int_bytes-set_bytes as' ha ka) ∙ ap int_bytes e ∙ int_bytes-set_bytes bs hb kb
