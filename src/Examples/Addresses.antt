-- ===== src/Examples/Addresses.antt =====
-- Addresses at which the laws of pkg/ip/cidr.go are used.
use plugins.Prelude.{ℕ, ◌≡◌, refl, ◌<◌, inl, inr, List, [], ◌∷◌, false, arith, length}
use plugins.Net.{Ip}
use plugins.Net.Facts.{IsBytes, IsCanonical}
use plugins.Cidr.{ip_to_int, next_ip}
use plugins.Cidr.Next.{
  IsPlain, IsSuccessor, inc_bytes, next_ip-inc_bytes, next_ip-IsSuccessor, length-next_ip_zero_lead,
}

abbrev pub ten_two : Ip
ten_two = 10 ∷ 0 ∷ 0 ∷ 2 ∷ []

abbrev pub ten_five : Ip
ten_five = 10 ∷ 0 ∷ 0 ∷ 5 ∷ []

pub ten_two-IsPlain : IsPlain ten_two
ten_two-IsPlain = record {
  size = inl refl;
  bytes = (omega arith, (omega arith, (omega arith, (omega arith, tt))));
  lead = omega arith;
}

pub ten_five-IsPlain : IsPlain ten_five
ten_five-IsPlain = record {
  size = inl refl;
  bytes = (omega arith, (omega arith, (omega arith, (omega arith, tt))));
  lead = omega arith;
}

ten_two_value : ip_to_int ten_two ≡ 167772162
unfolding ip_to_int
ten_two_value = refl

ten_five_value : ip_to_int ten_five ≡ 167772165
unfolding ip_to_int
ten_five_value = refl

abbrev end_of_block : Ip
end_of_block = 10 ∷ 0 ∷ 0 ∷ 255 ∷ []

next_ip_carry : next_ip end_of_block ≡ 10 ∷ 0 ∷ 1 ∷ 0 ∷ []
unfolding next_ip
next_ip_carry = refl

end_of_block-IsPlain : IsPlain end_of_block
end_of_block-IsPlain = record {
  size = inl refl;
  bytes = (omega arith, (omega arith, (omega arith, (omega arith, tt))));
  lead = omega arith;
}

no_carry : (inc_bytes end_of_block).0 ≡ false
unfolding inc_bytes
no_carry = refl

next_ip-inc_bytes_example : next_ip end_of_block ≡ (inc_bytes end_of_block).1
next_ip-inc_bytes_example = next_ip-inc_bytes end_of_block end_of_block-IsPlain no_carry

pub ten_in_order : ip_to_int ten_two < ip_to_int ten_five
ten_in_order = rw (ten_two_value, ten_five_value) (omega arith)

next_ip-IsSuccessor_example : IsSuccessor ten_two (next_ip ten_two)
next_ip-IsSuccessor_example =
    next_ip-IsSuccessor ten_two ten_five ten_two-IsPlain ten_five-IsPlain refl ten_in_order

-- 64:ff9b::1, the well-known prefix of NAT64
abbrev nat64_rest : List ℕ
nat64_rest = 0x64 ∷ 0xff ∷ 0x9b ∷ 0 ∷ 0 ∷ 0 ∷ 0 ∷ 0 ∷ 0 ∷ 0 ∷ 0 ∷ 0 ∷ 0 ∷ 0 ∷ 1 ∷ []

nat64_rest-IsBytes : IsBytes nat64_rest
nat64_rest-IsBytes = ground arith

nat64-IsCanonical : IsCanonical (0 ∷ nat64_rest)
nat64-IsCanonical = inr (refl, refl)

nat64_no_carry : (inc_bytes nat64_rest).0 ≡ false
unfolding inc_bytes
nat64_no_carry = refl

length-next_ip_zero_lead_example : length (next_ip (0 ∷ nat64_rest)) < length (0 ∷ nat64_rest)
length-next_ip_zero_lead_example =
    length-next_ip_zero_lead nat64_rest nat64_rest-IsBytes nat64-IsCanonical nat64_no_carry
