-- ===== src/HostLocal/Range/Complete.antt =====
-- What `Range.Canonicalize` leaves: a network with room for addresses, a gateway and both ends.
use plugins.Prelude.{◌+◌, ◌≤◌, ◌≡◌, ◌⊎◌, true, false, length, arith, ok, >>=-eq-ok}
use plugins.Net.{IpNet, is_nil, slice, equal, mask_ip, mask_size}
use plugins.Net.Facts.{IsCanonical}
use plugins.HostLocal.Types.{Range}
use plugins.HostLocal.Range.{
  canonicalize_ip, canonicalize_subnet, canonicalize_gateway, canonicalize_start, canonicalize_end,
  canonicalize, contains,
}
use plugins.HostLocal.Range.Canonical.{canonicalize_ip-IsCanonical}

-- A network address in canonical form with a mask of its length and room for two hosts.
pub record IsNetwork (n : IpNet) : Type 0 where
  pub canonical : IsCanonical n.ip
  pub one_length : length n.ip ≡ length n.mask
  pub no_host_bits : equal n.ip (slice (mask_ip n.ip n.mask)) ≡ true
  pub room : (mask_size n.mask).0 + 2 ≤ (mask_size n.mask).1

pub record IsComplete (r : Range) : Type 0 where
  pub network : IsNetwork r.subnet
  pub gateway : is_nil r.gateway ≡ false
  pub start : is_nil r.range_start ≡ false
  pub end : is_nil r.range_end ≡ false

canonicalize_subnet-IsNetwork : (r r' : Range) → canonicalize_subnet r ≡ ok r' → IsNetwork r'.subnet
unfolding canonicalize_subnet
canonicalize_subnet-IsNetwork r r' h =
    let (ip, rest, c) = >>=-eq-ok _ (canonicalize_ip r.subnet.ip) h in
    let k : IsCanonical ip = canonicalize_ip-IsCanonical r.subnet.ip ip c in
    record {
      canonical = ground arith;
      one_length = ground arith;
      no_host_bits = ground arith;
      room = ground arith;
    }

canonicalize_gateway-subnet :
    (r r' : Range)
    → canonicalize_gateway r ≡ ok r'
    → (r'.subnet ≡ r.subnet) × (is_nil r'.gateway ≡ false)
unfolding canonicalize_gateway
canonicalize_gateway-subnet r r' h = ground arith

canonicalize_start-subnet :
    (r r' : Range)
    → canonicalize_start r ≡ ok r'
    → (r'.subnet ≡ r.subnet) × (r'.gateway ≡ r.gateway) × (is_nil r'.range_start ≡ false)
unfolding canonicalize_start
canonicalize_start-subnet r r' h = ground arith

canonicalize_end-subnet :
    (r r' : Range)
    → canonicalize_end r ≡ ok r'
    → (r'.subnet ≡ r.subnet)
      × (r'.gateway ≡ r.gateway)
      × (r'.range_start ≡ r.range_start)
      × (is_nil r'.range_end ≡ false)
unfolding canonicalize_end
canonicalize_end-subnet r r' h = ground arith

-- An end that the configuration gives is in the range as it is left.
canonicalize_end-contains :
    (r r' : Range)
    → canonicalize_end r ≡ ok r'
    → (is_nil r.range_end ≡ true) ⊎ (contains r' (slice r'.range_end) ≡ true)
unfolding canonicalize_end
canonicalize_end-contains r r' h = ground arith

canonicalize_subnet-end :
    (r r' : Range) → canonicalize_subnet r ≡ ok r' → r'.range_end ≡ r.range_end
unfolding canonicalize_subnet
canonicalize_subnet-end r r' h = ground arith

canonicalize_gateway-end :
    (r r' : Range) → canonicalize_gateway r ≡ ok r' → r'.range_end ≡ r.range_end
unfolding canonicalize_gateway
canonicalize_gateway-end r r' h = ground arith

canonicalize_start-end : (r r' : Range) → canonicalize_start r ≡ ok r' → r'.range_end ≡ r.range_end
unfolding canonicalize_start
canonicalize_start-end r r' h = ground arith

pub canonicalize-IsComplete :
    (r r' : Range)
    → canonicalize r ≡ ok r'
    → IsComplete r' × ((is_nil r.range_end ≡ true) ⊎ (contains r' (slice r'.range_end) ≡ true))
unfolding canonicalize
canonicalize-IsComplete r r' h =
    let (r1, h1, e1) = >>=-eq-ok _ (canonicalize_subnet r) h in
    let (r2, h2, e2) = >>=-eq-ok _ (canonicalize_gateway r1) h1 in
    let (r3, h3, e3) = >>=-eq-ok _ (canonicalize_start r2) h2 in
    let network : IsNetwork r1.subnet = canonicalize_subnet-IsNetwork r r1 e1 in
    let (s2, g2) = canonicalize_gateway-subnet r1 r2 e2 in
    let (s3, g3, b3) = canonicalize_start-subnet r2 r3 e3 in
    let (s4, g4, b4, b5) = canonicalize_end-subnet r3 r' h3 in
    (
      record {
        network = rw (s4, s3, s2) network;
        gateway = rw (g4, g3) g2;
        start = rw b4 b3;
        end = b5;
      },
      rw
          (
            ← canonicalize_subnet-end r r1 e1,
            ← canonicalize_gateway-end r1 r2 e2,
            ← canonicalize_start-end r2 r3 e3,
          )
          (canonicalize_end-contains r3 r' h3),
    )
