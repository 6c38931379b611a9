-- ===== src/Dhcp/Lease/Times.antt =====
-- The times that `commit` sets, and where 85% of a lease time do not fit in 64 bits.
use plugins.Prelude.{ℕ, ◌+◌, ◌*◌, ◌/◌, ◌^◌, ◌≤◌, Result, ok, err, arith}
use plugins.Prelude.Int.{ℤ, pos, ◌≤ℤ◌, ◌<ℤ◌, wrap64, quot_ℕ, +ℤ_parts}
use plugins.Dhcp.Options.{OptionError, renewal_time, rebinding_time, parse_duration}
use plugins.Dhcp.Lease.{Packet, Lease, default_rebinding, rebinding_delay, renewal_delay, lease_of}

-- Renewing and rebinding start by the time the lease expires.
pub record IsOrdered (l : Lease) : Type 0 where
  pub renewal : l.renewal_at ≤ℤ l.expire_at
  pub rebinding : l.rebinding_at ≤ℤ l.expire_at

quot_wrap-le : (lease : ℕ) → default_rebinding lease ≤ℤ pos lease
unfolding wrap64 quot_ℕ
quot_wrap-le lease = ground arith

-- The default for rebinding is less than 85% of the lease time if 85 times the lease time is at
-- least `2 ^ 63 + 100` nanoseconds: the product wraps around.
pub default_rebinding_overflow :
    (lease : ℕ) → 2 ^ 63 + 100 ≤ lease * 85 → default_rebinding lease <ℤ pos (lease * 85 / 100)
unfolding wrap64 quot_ℕ
default_rebinding_overflow lease h = ground arith

rebinding_delay-le : (lease : ℕ) (r : Result OptionError ℕ) → rebinding_delay lease r ≤ℤ pos lease
unfolding rebinding_delay
rebinding_delay-le lease (err e) = quot_wrap-le lease
rebinding_delay-le lease (ok t) = ground (arith, quot_wrap-le lease)

renewal_delay-le :
    (lease : ℕ) (rebinding : ℤ) (r : Result OptionError ℕ)
    → rebinding ≤ℤ pos lease
    → renewal_delay lease rebinding r ≤ℤ pos lease
unfolding renewal_delay
renewal_delay-le lease rebinding (err e) h = omega arith
renewal_delay-le lease rebinding (ok t) h = ground arith

-- Whatever times the acknowledgement names, the lease that `commit` makes of it has its times for
-- renewing and rebinding no later than its expiration.
pub lease_of-IsOrdered : (ack : Packet) (lease : ℕ) (t : ℤ) → IsOrdered (lease_of ack lease t)
unfolding lease_of
lease_of-IsOrdered ack lease t =
    let r = parse_duration ack.options rebinding_time in
    let n = parse_duration ack.options renewal_time in
    let rebinding = rebinding_delay lease r in
    let le = rebinding_delay-le lease r in
    let le' = renewal_delay-le lease rebinding n le in
    record {
      renewal =
          omega (arith, le', +ℤ_parts t (renewal_delay lease rebinding n), +ℤ_parts t (pos lease));
      rebinding = omega (arith, le, +ℤ_parts t rebinding, +ℤ_parts t (pos lease));
    }
