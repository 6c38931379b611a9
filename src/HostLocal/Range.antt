-- ===== src/HostLocal/Range.antt =====
-- host-local/backend/allocator/range.go
pub mod Canonical
pub mod Complete
use plugins.Prelude.{
  ℕ, zero, suc, ◌+◌, ◌-◌, ◌%◌, ◌≡◌, List, [], ◌∷◌, Bool, true, false, ◌&&◌, ◌||◌, not, Option, none,
  some, bit_or, length, text_eq, ◌==◌, leb, ltb, if◌then◌else◌, Result, ok, err, ◌>>=◌,
}
use plugins.Net.{Ip, IpMask, IpNet, to4, to16, slice, equal, mask_ip, mask_size, net_contains}
use plugins.Cidr.{Sign, less, same, greater, cmp, next_ip}
use plugins.HostLocal.Types.{
  Error, Range, not_v4_nor_v6, network_too_small, version_mismatch, host_bits_set,
  range_start_outside, range_end_outside, index_panic,
}

unfoldable pub canonicalize_ip : Ip → Result Error Ip
canonicalize_ip ip = elim (to4 ip) [
  | some a ↦ ok a
  | none ↦ elim (to16 ip) [ some a ↦ ok a | none ↦ err not_v4_nor_v6 ]
]

-- The loop of `lastIP`: `ip[i] | ^mask[i]` at each index of the address.
unfoldable pub host_bytes : Ip → IpMask → Result Error Ip
host_bytes [] m = ok []
host_bytes (a ∷ rest) [] = err index_panic
host_bytes (a ∷ rest) (m ∷ ms) = do end ← host_bytes rest ms; ok (bit_or a (255 - m) ∷ end)

-- `end[3]--` on a byte
unfoldable pub decrement_at : ℕ → Ip → Result Error Ip
decrement_at i [] = err index_panic
decrement_at zero (b ∷ bs) = ok ((b + 255) % 256 ∷ bs)
decrement_at (suc i) (b ∷ bs) = do rest ← decrement_at i bs; ok (b ∷ rest)

unfoldable pub last_ip : IpNet → Result Error Ip
last_ip subnet = do
  end ← host_bytes subnet.ip subnet.mask
  elim (to4 subnet.ip) [ some _ ↦ decrement_at 3 end | none ↦ ok end ]

abbrev not_before : Ip → Option Ip → Bool
not_before a none = true
not_before a (some start) = elim (cmp a start) [ less ↦ false | _ ↦ true ]

abbrev not_after : Ip → Option Ip → Bool
not_after a none = true
not_after a (some end) = elim (cmp a end) [ greater ↦ false | _ ↦ true ]

-- `Contains`, of an address that is in canonical form
unfoldable pub contains_canonical : Range → Ip → Bool
contains_canonical r a =
    if not (length a == length r.subnet.ip)
    then false
    else if not (net_contains r.subnet a)
    then false
    else if not (not_before a r.range_start)
    then false
    else not_after a r.range_end

unfoldable pub contains : Range → Ip → Bool
contains r addr = elim (canonicalize_ip addr) [ err _ ↦ false | ok a ↦ contains_canonical r a ]

unfoldable pub overlaps : Range → Range → Bool
overlaps r r1 =
    if not (length (slice r.range_start) == length (slice r1.range_start))
    then false
    else contains r (slice r1.range_start)
      || contains r (slice r1.range_end)
      || contains r1 (slice r.range_start)
      || contains r1 (slice r.range_end)

-- The steps of `Canonicalize`, each on the range as the steps before have left it.
unfoldable pub canonicalize_subnet : Range → Result Error Range
canonicalize_subnet r = do
  ip ← canonicalize_ip r.subnet.ip
  let (ones, masklen) = mask_size r.subnet.mask
  if ltb masklen (ones + 2)
      then err network_too_small
      else if not (length ip == length r.subnet.mask)
      then err version_mismatch
      else if not (equal ip (slice (mask_ip ip r.subnet.mask)))
      then err host_bits_set
      else ok (record r { subnet = record { ip = ip; mask = r.subnet.mask } })

unfoldable pub canonicalize_gateway : Range → Result Error Range
canonicalize_gateway r = elim r.gateway [
  | none ↦ ok (record r { gateway = some (next_ip r.subnet.ip) })
  | some gw ↦ do a ← canonicalize_ip gw; ok (record r { gateway = some a })
]

unfoldable pub canonicalize_start : Range → Result Error Range
canonicalize_start r = elim r.range_start [
  | none ↦ ok (record r { range_start = some (next_ip r.subnet.ip) })
  | some start ↦ do
    a ← canonicalize_ip start
    let r' = record r { range_start = some a }
    if contains r' a then ok r' else err range_start_outside
]

unfoldable pub canonicalize_end : Range → Result Error Range
canonicalize_end r = elim r.range_end [
  | none ↦ do end ← last_ip r.subnet; ok (record r { range_end = some end })
  | some end ↦ do
    a ← canonicalize_ip end
    let r' = record r { range_end = some a }
    if contains r' a then ok r' else err range_end_outside
]

-- `Range.Canonicalize`, with the range that it leaves as its result
unfoldable pub canonicalize : Range → Result Error Range
canonicalize r = do
  r1 ← canonicalize_subnet r
  r2 ← canonicalize_gateway r1
  r3 ← canonicalize_start r2
  canonicalize_end r3
