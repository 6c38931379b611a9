-- ===== src/Prelude/Texts.antt =====
-- Text and byte strings as lists of numbers, with a Boolean equality; the part of Go's `strings`
-- package that the plugins call on them.
use Prim.Native.Nat.{ℕ, zero, suc, ◌+◌, ◌/◌, ◌%◌}
use Prim.Native.Char.{code}
use Prim.Native.String.{String}
use mathlib.Core.Path.{◌≡◌, refl}
use mathlib.Core.Logic.{◌↔◌}
use mathlib.Core.Bool.{Bool, true, false, ◌&&◌, ◌||◌}
use mathlib.Core.List.{List, [], ◌∷◌, reverse, map}
use native.Mathlib.Omega.{arith}
use plugins.Prelude.Tests.{◌==◌, leb, if◌then◌else◌}

-- A text is the list of its runes.
abbrev pub Text : Type 0
Text = List ℕ

abbrev pub text : String → Text
text String.[] = []
text (String.◌∷◌ c s) = code c ∷ text s

abbrev pub text_eq : List ℕ → List ℕ → Bool
text_eq [] [] = true
text_eq [] (y ∷ ys) = false
text_eq (x ∷ xs) [] = false
text_eq (x ∷ xs) (y ∷ ys) = x == y && text_eq xs ys

pub text_eq-eq : (xs ys : List ℕ) → text_eq xs ys ≡ true → xs ≡ ys
text_eq-eq [] [] h = refl
text_eq-eq [] (y ∷ ys) h = ground arith
text_eq-eq (x ∷ xs) [] h = ground arith
text_eq-eq (x ∷ xs) (y ∷ ys) h = ground (arith, text_eq-eq xs ys)

pub text_eq_self : (xs : List ℕ) → text_eq xs xs ≡ true
text_eq_self [] = refl
text_eq_self (x ∷ xs) = ground (arith, text_eq_self xs)

pub text_eq_iff : (xs ys : List ℕ) → (text_eq xs ys ≡ true) ↔ (xs ≡ ys)
text_eq_iff xs ys = (text_eq-eq xs ys, λ e. rw e (text_eq_self ys))

-- `unicode.IsSpace`
abbrev pub is_space : ℕ → Bool
is_space c =
    leb 9 c && leb c 13
    || c == 0x20
    || c == 0x85
    || c == 0xa0
    || c == 0x1680
    || leb 0x2000 c && leb c 0x200a
    || c == 0x2028
    || c == 0x2029
    || c == 0x202f
    || c == 0x205f
    || c == 0x3000

pub trim_left : Text → Text
trim_left [] = []
trim_left (c ∷ cs) = if is_space c then trim_left cs else c ∷ cs

-- `strings.TrimSpace`
unfoldable pub trim_space : Text → Text
unfolding trim_left
trim_space s = reverse (trim_left (reverse (trim_left s)))

digits_onto : ℕ → ℕ → Text → Text
digits_onto zero n acc = acc
digits_onto (suc fuel) n acc =
    let here = (b'0' + n % 10) ∷ acc in
    let rest = digits_onto fuel (n / 10) ((b'0' + n % 10) ∷ acc) in if leb n 9 then here else rest

-- `strconv.Itoa` of a number that is not negative
unfoldable pub itoa : ℕ → Text
unfolding digits_onto
itoa n = digits_onto (suc n) n []

-- `strings.Fields`: the maximal runs of runes that are no spaces
fields_onto : Text → Text → List Text
fields_onto [] [] = []
fields_onto (w ∷ ws) [] = reverse (w ∷ ws) ∷ []
fields_onto word (c ∷ cs) =
    let skip = fields_onto [] cs in
    let close = reverse word ∷ fields_onto [] cs in
    let extend = fields_onto (c ∷ word) cs in
    if is_space c then (if text_eq word [] then skip else close) else extend

unfoldable pub fields : Text → List Text
unfolding fields_onto
fields s = fields_onto [] s

-- `strings.ToLower` on ASCII letters, which are the ones of protocol names
unfoldable pub to_lower : Text → Text
to_lower = map (λ c. if leb b'A' c && leb c b'Z' then c + 32 else c)
