-- ===== src/Net/Facts.antt =====
-- Facts on addresses in canonical form, and on the masks of one length.
use plugins.Prelude.{
  ℕ, ◌<◌, ◌≡◌, ◌⊎◌, List, true, false, All, length, text_eq-eq, text_eq_self, arith,
}
use plugins.Net.{Ip, equal, has_v4_prefix}

-- What `canonicalizeIP` leaves: 4 bytes, or 16 bytes that are no IPv4 address.
abbrev pub IsCanonical : Ip → Type 0
IsCanonical a = (length a ≡ 4) ⊎ ((length a ≡ 16) × (has_v4_prefix a ≡ false))

abbrev pub IsBytes : List ℕ → Type 0
IsBytes = All (λ b. b < 256)

pub equal_self : (a : Ip) → equal a a ≡ true
unfolding equal
equal_self a = ground (arith, text_eq_self a)

-- On canonical addresses `Equal` is equality.
pub equal-eq : (a b : Ip) → IsCanonical a → IsCanonical b → equal a b ≡ true → a ≡ b
unfolding equal
equal-eq a b ha hb h = ground (arith, text_eq-eq a b)
