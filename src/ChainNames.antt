-- ===== src/ChainNames.antt =====
-- pkg/utils/utils.go: names of iptables chains, of one length, made unique by a hash. SHA-512 is a
-- parameter, in hexadecimal.
use plugins.Prelude.{
  ℕ, ◌≤◌, ◌≡◌, List, [], ◌∷◌, ◌++◌, ◌||◌, Option, none, some, Text, text, length, take, leb, ltb,
  if◌then◌else◌, arith, ◌⊎◌, inl, inr, refl, ap, zero, suc, Bool-cases, length-append,
}

abbrev pub max_chain_length : ℕ
max_chain_length = 28

abbrev pub chain_prefix : Text
chain_prefix = text "CNI-"

abbrev pub max_hash_len : ℕ
max_hash_len = 128

module _ (sha512_hex : Text → Text) where
  -- `MustFormatHashWithPrefix`; none is the panic
  unfoldable pub must_format_hash_with_prefix : ℕ → Text → Text → Option Text
  must_format_hash_with_prefix len prefix to_hash =
      if leb len (length prefix) || ltb max_hash_len len
      then none
      else some (take len (prefix ++ sha512_hex to_hash))

  -- `MustFormatChainNameWithPrefix`
  unfoldable pub chain_name_with_prefix : Text → Text → Text → Option Text
  unfolding must_format_hash_with_prefix
  chain_name_with_prefix name id prefix =
      must_format_hash_with_prefix max_chain_length (chain_prefix ++ prefix) (name ++ id)

  -- `FormatChainName`
  unfoldable pub format_chain_name : Text → Text → Option Text
  unfolding chain_name_with_prefix
  format_chain_name name id = chain_name_with_prefix name id []

-- `FormatComment`, over the quoting of `%q`
unfoldable pub format_comment : (Text → Text) → Text → Text → Text
format_comment quote name id = text "name: " ++ quote name ++ text " id: " ++ quote id

take-take_append :
    {A : Type 0} (m : ℕ) (xs ys : List A)
    → length xs ≤ m
    → take (length xs) (take m (xs ++ ys)) ≡ xs
take-take_append m [] ys h = refl
take-take_append zero (x ∷ xs) ys h = ground arith
take-take_append (suc m) (x ∷ xs) ys h =
    ap (λ r. x ∷ r) (take-take_append m xs ys (omega (arith, h)))

length-take : {A : Type 0} (n : ℕ) (xs : List A) → n ≤ length xs → length (take n xs) ≡ n
length-take zero xs h = refl
length-take (suc n) [] h = ground arith
length-take (suc n) (x ∷ xs) h = ap suc (length-take n xs (omega (arith, h)))

-- Over a hash of 128 digits, a name is refused where the prefix leaves no room for a digit of the
-- hash, and else has 28 bytes and begins with `CNI-` and the prefix.
pub chain_name_with_prefix-cases :
    (sha512_hex : Text → Text) (name id prefix : Text)
    → ((t : Text) → length (sha512_hex t) ≡ 128)
    → ((24 ≤ length prefix) × (chain_name_with_prefix sha512_hex name id prefix ≡ none))
      ⊎ ((chain : Text) × (chain_name_with_prefix sha512_hex name id prefix ≡ some chain)
          × (length chain ≡ 28)
          × (take (length (chain_prefix ++ prefix)) chain ≡ chain_prefix ++ prefix))
unfolding chain_name_with_prefix
chain_name_with_prefix-cases sha512_hex name id prefix h =
    elim (Bool-cases (leb 24 (length prefix))) [
      | inl e ↦ inl (ground arith, ground arith)
      | inr e ↦ inr (
        take 28 (full_text name id prefix),
        ground arith,
        length-take 28 (full_text name id prefix) (
            omega (
              arith,
              length-append (chain_prefix ++ prefix) (sha512_hex (name ++ id)),
              h (name ++ id),
            )),
        take-take_append 28 (chain_prefix ++ prefix) (sha512_hex (name ++ id)) (ground arith),
      )
    ]
  where
    full_text : Text → Text → Text → Text
    full_text name id prefix = (chain_prefix ++ prefix) ++ sha512_hex (name ++ id)
