-- ===== src/Dhcp/Maintain/Held.antt =====
-- A server whose acknowledgements have no lease time: `renew` of plugins/ipam/dhcp/lease.go ignores
-- the error of `commit`, so the loop goes on with the lease that it has.
use plugins.Prelude.{◌≡◌, ◌≢◌, refl, true, Result, ok, err, Text, ◌==◌, Bool-cases, inl, inr}
use mathlib.Core.Path.{subst}
use plugins.Prelude.Int.{ℤ, ltb_ℤ}
use plugins.Dhcp.Options.{OptionError, lease_time, parse_duration}
use plugins.Dhcp.Lease.{
  Wire, Packet, Lease, LeaseError, ack_type, add_options, dhcp_renew, backoff_retry, commit, renew,
  client_options,
}
use plugins.Dhcp.Maintain.{
  LeaseState, Turn, bound, renewing, rebinding, straight, sleeping, expired, turn, settle, Config,
  running, released, down, Step, go_on, wake, stop, expire, Reach, here, next,
}

-- An acknowledgement without a lease time.
pub record IsBare (ack : Packet) : Type 0 where
  pub accepts : (ack.message_type == ack_type) ≡ true
  pub error : OptionError
  pub timeless : parse_duration ack.options lease_time ≡ err error

-- The turn keeps the lease and does not lead to rebinding.
abbrev HeldTurn : Lease → Turn → Type 0
HeldTurn l (straight st) = st ≢ rebinding
HeldTurn l (sleeping st l' t) = (l' ≡ l) × (st ≢ rebinding)
HeldTurn l expired = ⊥

module _ {S : Type 0} (w : Wire S) (client_id : Text) (resend_max : ℤ) where
  -- The loop has the lease and does not rebind, or it was stopped; the interface is not down.
  abbrev pub IsHeld : Lease → Config w client_id resend_max → Type 0
  IsHeld l (running st l' s) = (l' ≡ l) × (st ≢ rebinding)
  IsHeld l (released s) = Unit {0}
  IsHeld l (down s) = ⊥

module _ {S : Type 0} (w : Wire S) (client_id : Text) (resend_max : ℤ)
    (connects : (s : S) → (w.new_client s).0 ≡ ok tt)
    (sends : (p : Packet) (s : S) → (w.send p s).0 ≡ ok tt)
    (answers : (p : Packet) (s : S)
      → (ack : Packet) × ((w.get_acknowledgement p s).0 ≡ ok ack) × IsBare ack) where
  renew-held : (l : Lease) (s : S) → (renew w client_id resend_max l s).0 ≡ ok l
  unfolding renew dhcp_renew backoff_retry commit
  renew-held l s =
      let s1 = (w.new_client s).1 in
      let request = add_options (client_options client_id) (w.renewal_packet l.ack) in
      let s2 = (w.send request s1).1 in
      let (ack, answered, bare) = answers request s2 in
      rw
        (
          renew,
          connects s,
          dhcp_renew,
          backoff_retry,
          sends request s1,
          answered,
          bare.accepts,
          commit,
          bare.timeless,
        )
        refl

  settle-held :
      (failed : S → Turn × S) (l : Lease) (res : Result LeaseError Lease × S)
      → res.0 ≡ ok l
      → HeldTurn l (settle w client_id resend_max failed res).0
  settle-held failed l (ok l', s) h = (cc, λ e. cc)
  settle-held failed l (err x, s) h = absurd cc

  turn-held :
      (st : LeaseState) (l : Lease) (s : S)
      → st ≢ rebinding
      → HeldTurn l (turn w client_id resend_max st l s).0
  unfolding turn
  turn-held bound l s h = elim (Bool-cases (ltb_ℤ (w.now s).0 l.renewal_at)) [
    | inl e ↦ rw (turn, e) (refl, λ e. cc)
    | inr e ↦ rw (turn, e) (λ e. cc)
  ]
  turn-held renewing l s h = settle-held _ l (renew w client_id resend_max l s) (renew-held l s)
  turn-held rebinding l s h = elim (h refl) [ ]

  turned :
      (l l' : Lease) (st : LeaseState) (s s' : S) (t : Turn)
      → IsHeld w client_id resend_max l (running st l' s)
      → turn w client_id resend_max st l' s ≡ (t, s')
      → HeldTurn l t
  turned l l' st s s' t h e =
      let k : HeldTurn l' (turn w client_id resend_max st l' s).0 = turn-held st l' s h.1 in
      subst (λ z. HeldTurn z t) h.0 (subst (λ (z : Turn × S). HeldTurn l' z.0) e k)

  Step-IsHeld :
      (l : Lease) {c d : Config w client_id resend_max}
      → Step w client_id resend_max c d
      → IsHeld w client_id resend_max l c
      → IsHeld w client_id resend_max l d
  Step-IsHeld l (go_on st st' l1 s s' c d e) h =
      let k : IsHeld w client_id resend_max l (running st l1 s) = rw c at h in
      rw d (k.0, turned l l1 st s s' (straight st') k e)
  Step-IsHeld l (wake st st' l1 l2 t s s' s'' c d e f) h =
      let k : IsHeld w client_id resend_max l (running st l1 s) = rw c at h in
      rw d (turned l l1 st s s' (sleeping st' l2 t) k e)
  Step-IsHeld l (stop st st' l1 l2 t s s' s'' c d e f) h = rw d tt
  Step-IsHeld l (expire st l1 s s' c d e) h =
      let k : IsHeld w client_id resend_max l (running st l1 s) = rw c at h in
      absurd (turned l l1 st s s' expired k e)

  Reach-IsHeld_from :
      (l : Lease) {c d : Config w client_id resend_max}
      → Reach w client_id resend_max c d
      → IsHeld w client_id resend_max l c
      → IsHeld w client_id resend_max l d
  Reach-IsHeld_from l here h = h
  Reach-IsHeld_from l (next r st) h = Step-IsHeld l st (Reach-IsHeld_from l r h)

  -- Where the client can send and every answer to a renewal is an acknowledgement without a lease
  -- time, a loop that began bound to a lease keeps that lease until it is stopped: it never comes to
  -- rebinding and never takes the interface down, however far the clock is past the lease's end.
  pub Reach-IsHeld :
      (l : Lease) (s : S) (d : Config w client_id resend_max)
      → Reach w client_id resend_max (running bound l s) d
      → IsHeld w client_id resend_max l d
  Reach-IsHeld l s d r = Reach-IsHeld_from l r (refl, λ e. cc)
