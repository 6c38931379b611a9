-- ===== src/Net.antt =====
-- The part of Go's package `net` that the plugins call: IP addresses and networks as byte slices.
-- An `IP` is a slice; a nil slice that a caller may test for is `none` of an option of slices.
pub mod Facts
use plugins.Prelude.{
  ℕ, zero, suc, ◌+◌, ◌-◌, ◌*◌, ◌%◌, ◌^◌, List, [], ◌∷◌, ◌++◌, Bool, true, false, ◌&&◌, ◌||◌, not,
  Option, none, some, bit_and, length, take, drop, text_eq, ◌==◌, leb, ltb, if◌then◌else◌,
}

abbrev pub Ip : Type 0
Ip = List ℕ

abbrev pub IpMask : Type 0
IpMask = List ℕ

pub record IpNet : Type 0 where
  pub ip : Ip
  pub mask : IpMask

-- a nil slice has length 0
abbrev pub slice : Option Ip → Ip
slice none = []
slice (some a) = a

abbrev pub is_nil {ℓ} : {A : Type ℓ} → Option A → Bool
is_nil none = true
is_nil (some a) = false

-- the prefix of an IPv4 address in its 16 byte form
abbrev pub v4_in_v6_prefix : List ℕ
v4_in_v6_prefix = 0 ∷ 0 ∷ 0 ∷ 0 ∷ 0 ∷ 0 ∷ 0 ∷ 0 ∷ 0 ∷ 0 ∷ 255 ∷ 255 ∷ []

abbrev pub has_v4_prefix : Ip → Bool
has_v4_prefix a = text_eq (take 12 a) v4_in_v6_prefix

-- `IP.To4`
unfoldable pub to4 : Ip → Option Ip
to4 a =
    if length a == 4
    then some a
    else if length a == 16 && has_v4_prefix a
    then some (drop 12 a)
    else none

-- `IP.To16`
unfoldable pub to16 : Ip → Option Ip
to16 a =
    if length a == 4 then some (v4_in_v6_prefix ++ a) else if length a == 16 then some a else none

-- `IP.Equal`: an IPv4 address and its 16 byte form are equal
unfoldable pub equal : Ip → Ip → Bool
equal a b =
    if length a == length b
    then text_eq a b
    else if length a == 4 && length b == 16
    then has_v4_prefix b && text_eq a (drop 12 b)
    else length a == 16 && length b == 4 && has_v4_prefix a && text_eq (drop 12 a) b

-- `a[i] & m[i]` at each index of two slices of one length
unfoldable pub and_bytes : List ℕ → List ℕ → List ℕ
and_bytes [] m = []
and_bytes (a ∷ rest) [] = []
and_bytes (a ∷ rest) (m ∷ ms) = bit_and a m ∷ and_bytes rest ms

abbrev all_ff : List ℕ → Bool
all_ff [] = true
all_ff (b ∷ bs) = b == 255 && all_ff bs

-- the two adjustments of `IP.Mask` to a mask and an address of different families
abbrev mask_for : Ip → IpMask → IpMask
mask_for a m = if length m == 16 && length a == 4 && all_ff (take 12 m) then drop 12 m else m

abbrev ip_for : Ip → IpMask → Ip
ip_for a m = if length m == 4 && length a == 16 && has_v4_prefix a then drop 12 a else a

-- `IP.Mask`
unfoldable pub mask_ip : Ip → IpMask → Option Ip
mask_ip a m =
    let m' = mask_for a m in
    let a' = ip_for a m' in if length a' == length m' then some (and_bytes a' m') else none

-- the leading ones of a byte, `none` if a one follows a zero
abbrev byte_ones : ℕ → Option ℕ
byte_ones b =
    if b == 0
    then some 0
    else if b == 128
    then some 1
    else if b == 192
    then some 2
    else if b == 224
    then some 3
    else if b == 240
    then some 4
    else if b == 248
    then some 5
    else if b == 252
    then some 6
    else if b == 254
    then some 7
    else none

abbrev all_zero : List ℕ → Bool
all_zero [] = true
all_zero (b ∷ bs) = b == 0 && all_zero bs

-- `simpleMaskLength`
unfoldable pub simple_mask_length : ℕ → IpMask → Option ℕ
simple_mask_length n [] = some n
simple_mask_length n (b ∷ bs) =
    let rest = simple_mask_length (n + 8) bs in
    if b == 255
    then rest
    else elim (byte_ones b) [ none ↦ none | some k ↦ if all_zero bs then some (n + k) else none ]

-- `IPMask.Size`: the leading ones and the bits, both 0 where the mask is not ones and then zeros
unfoldable pub mask_size : IpMask → ℕ × ℕ
unfolding simple_mask_length
mask_size m = elim (simple_mask_length 0 m) [ none ↦ (0, 0) | some n ↦ (n, length m * 8) ]

-- `networkNumberAndMask`
unfoldable pub network_number : IpNet → Ip
unfolding to4
network_number n =
    let number : Ip = elim (to4 n.ip) [
      | some a ↦ a
      | none ↦ if length n.ip == 16 then n.ip else []
    ] in
    let usable =
      (length n.mask == 4 && length number == 4)
      || (length n.mask == 16 && (length number == 4 || length number == 16)) in
    if usable then number else []

unfoldable pub network_mask : IpNet → IpMask
unfolding network_number
network_mask n =
    if length n.mask == 16 && length (network_number n) == 4 then drop 12 n.mask else n.mask

-- `IPNet.Contains`
unfoldable pub net_contains : IpNet → Ip → Bool
unfolding network_number network_mask to4 and_bytes
net_contains n a =
    let x : Ip = elim (to4 a) [ some b ↦ b | none ↦ a ] in
    length x == length (network_number n)
    && text_eq (and_bytes (network_number n) (network_mask n)) (and_bytes x (network_mask n))

abbrev pub ipv4_zero : Ip
ipv4_zero = 0 ∷ 0 ∷ 0 ∷ 0 ∷ []

abbrev pub ipv6_unspecified : Ip
ipv6_unspecified = 0 ∷ 0 ∷ 0 ∷ 0 ∷ 0 ∷ 0 ∷ 0 ∷ 0 ∷ 0 ∷ 0 ∷ 0 ∷ 0 ∷ 0 ∷ 0 ∷ 0 ∷ 0 ∷ []

-- `IP.IsUnspecified`
unfoldable pub is_unspecified : Ip → Bool
unfolding equal
is_unspecified a = equal a ipv4_zero || equal a ipv6_unspecified

-- `IP.DefaultMask`: the mask of the class of an IPv4 address
unfoldable pub default_mask : Ip → Option IpMask
default_mask ip = elim (to4 ip) [
  | none ↦ none
  | some [] ↦ none
  | some (a ∷ _) ↦ some (
      if ltb a 128
      then 255 ∷ 0 ∷ 0 ∷ 0 ∷ []
      else if ltb a 192
      then 255 ∷ 255 ∷ 0 ∷ 0 ∷ []
      else 255 ∷ 255 ∷ 255 ∷ 0 ∷ [])
]

-- `CIDRMask` at a number of ones that the bytes have room for
unfoldable pub cidr_mask : ℕ → ℕ → IpMask
cidr_mask zero ones = []
cidr_mask (suc bytes) ones =
    if leb 8 ones
    then 255 ∷ cidr_mask bytes (ones - 8)
    else (256 - 2 ^ (8 - ones)) ∷ cidr_mask bytes 0
