-- ===== src/Cidr.antt =====
-- pkg/ip/cidr.go: addresses as big-endian numbers, their successors and their order.
pub mod Bytes
pub mod Next
use plugins.Prelude.{
  ℕ, zero, suc, ◌+◌, ◌-◌, ◌*◌, ◌/◌, ◌%◌, List, [], ◌∷◌, Bool, true, false, Option, none, some, ◌==◌,
  ltb, if◌then◌else◌,
}
use plugins.Net.{Ip, IpNet, to4, to16, slice, mask_ip}

-- `big.Int.SetBytes`, from an accumulator
unfoldable pub set_bytes : ℕ → List ℕ → ℕ
set_bytes n [] = n
set_bytes n (b ∷ bs) = set_bytes (n * 256 + b) bs

-- The digits of `n` before `acc`. Each round divides by 256, so `n` rounds are enough.
unfoldable pub bytes_onto : ℕ → ℕ → List ℕ → List ℕ
bytes_onto zero n acc = acc
bytes_onto (suc fuel) n acc =
    let rest = bytes_onto fuel (n / 256) (n % 256 ∷ acc) in if n == 0 then acc else rest

-- `big.Int.Bytes`: no leading zero, and nothing for 0
unfoldable pub int_bytes : ℕ → List ℕ
unfolding bytes_onto
int_bytes n = bytes_onto n n []

unfoldable pub ip_to_int : Ip → ℕ
unfolding to4 to16 set_bytes
ip_to_int ip = elim (to4 ip) [ some v ↦ set_bytes 0 v | none ↦ set_bytes 0 (slice (to16 ip)) ]

unfoldable pub int_to_ip : ℕ → Ip
unfolding int_bytes
int_to_ip i = int_bytes i

unfoldable pub next_ip : Ip → Ip
unfolding ip_to_int int_to_ip
next_ip ip = int_to_ip (ip_to_int ip + 1)

-- `Bytes` gives the absolute value, here of -1.
unfoldable pub prev_ip : Ip → Ip
unfolding ip_to_int int_to_ip
prev_ip ip = let i = ip_to_int ip in if i == 0 then int_to_ip 1 else int_to_ip (i - 1)

-- The three results of `Cmp`.
pub data Sign : Type 0 where
  less same greater : Sign

unfoldable pub cmp : Ip → Ip → Sign
cmp a b =
    let aa = ip_to_int a in
    let bb = ip_to_int b in if ltb aa bb then less else if aa == bb then same else greater

-- `Network`; the address is nil where address and mask do not fit
unfoldable pub network : IpNet → IpNet
unfolding mask_ip
network n = record n { ip = slice (mask_ip n.ip n.mask) }
