-- ===== src/Dhcp/Maintain/Expiry.antt =====
-- When the loop of a lease gives up: not before the lease expires, and then indeed where the server
-- stays silent.
use plugins.Prelude.{◌≡◌, refl, Bool-cases, inl, inr, Result, ok, err, Text, arith}
use plugins.Prelude.Int.{ℤ, ◌<ℤ◌, ltb_ℤ}
use plugins.Dhcp.Lease.{Wire, Lease, LeaseError, acquire}
use plugins.Dhcp.Lease.Retry.{IsErr}
use plugins.Dhcp.Maintain.{
  LeaseState, bound, renewing, rebinding, expired, turn, settle, after_renewal, after_rebinding,
  running, down, Step, go_on, wake, stop, expire,
}

module _ {S : Type 0} (w : Wire S) (client_id : Text) (resend_max : ℤ) where
  settle-expired :
      (l : Lease) (res : Result LeaseError Lease × S) (s' : S)
      → settle w client_id resend_max (after_rebinding w client_id resend_max l) res ≡ (expired, s')
      → IsErr res.0 × (l.expire_at <ℤ (w.now res.1).0) × (s' ≡ w.link_set_down (w.now res.1).1)
  settle-expired l (ok l', s) s' h = cc
  settle-expired l (err e, s) s' h = elim (Bool-cases (ltb_ℤ l.expire_at (w.now s).0)) [
    | inl b ↦ let h' = rw b at h in (tt, ground arith, cc)
    | inr b ↦ let h' = rw b at h in absurd cc
  ]

  settle-not_expired :
      (l : Lease) (res : Result LeaseError Lease × S) (s' : S)
      → settle w client_id resend_max (after_renewal w client_id resend_max l) res ≡ (expired, s')
      → ⊥
  settle-not_expired l (ok l', s) s' h = cc
  settle-not_expired l (err e, s) s' h = cc

  -- What stands when a lease is given up: a failed request for a new one, after which the clock is
  -- past the end of the lease, and the interface that is set down after that reading.
  abbrev pub HasGivenUp : Lease → S → S → Type 0
  HasGivenUp l s s' =
      let res = acquire w client_id resend_max s in
      IsErr res.0 × (l.expire_at <ℤ (w.now res.1).0) × (s' ≡ w.link_set_down (w.now res.1).1)

  pub turn-expired :
      (st : LeaseState) (l : Lease) (s s' : S)
      → turn w client_id resend_max st l s ≡ (expired, s')
      → (st ≡ rebinding) × HasGivenUp l s s'
  unfolding turn
  turn-expired bound l s s' h = ground arith
  turn-expired renewing l s s' h = absurd (settle-not_expired l _ s' h)
  turn-expired rebinding l s s' h = (refl, settle-expired l _ s' h)

  -- The loop ends with the interface down only while it rebinds, after a request for a new lease
  -- that has failed, where the clock, read after that failure, is past the end of the lease; and it
  -- sets the interface down after that reading.
  pub Step-down :
      (st : LeaseState) (l : Lease) (s s' : S)
      → Step w client_id resend_max (running st l s) (down s')
      → (st ≡ rebinding) × HasGivenUp l s s'
  Step-down st l s s' (go_on st1 st2 l1 s1 s2 c d e) = cc
  Step-down st l s s' (wake st1 st2 l1 l2 t s1 s2 s3 c d e f) = cc
  Step-down st l s s' (stop st1 st2 l1 l2 t s1 s2 s3 c d e f) = cc
  Step-down st l s s' (expire st1 l1 s1 s2 c d e) =
      let (same_st, same_l, same_s) : (st1 ≡ st) × (l1 ≡ l) × (s1 ≡ s) = ground arith in
      let same_s' : s2 ≡ s' = cc in
      turn-expired st l s s' (rw (same_st, same_l, same_s, same_s') at e)
