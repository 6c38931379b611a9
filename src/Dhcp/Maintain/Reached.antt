-- ===== src/Dhcp/Maintain/Reached.antt =====
-- What holds of every lease that the loop reaches.
use plugins.Prelude.{Result, ok, err, Text, Bool-cases, inl, inr, Result-cases}
use plugins.Prelude.Int.{ℤ, ltb_ℤ}
use plugins.Prelude.Effects.{Act, continue, pure, ◌>>=◌}
use plugins.Dhcp.Options.{lease_time, parse_duration}
use plugins.Dhcp.Lease.{
  Wire, Packet, Lease, LeaseError, commit, acquire, renew, bring_up, retries, resend_delay0,
  backoff_retry, dhcp_request, dhcp_renew, request_options, client_options, accepted,
}
use plugins.Dhcp.Lease.Times.{IsOrdered, lease_of-IsOrdered}
use plugins.Dhcp.Maintain.{
  LeaseState, Turn, bound, renewing, rebinding, straight, sleeping, expired, turn, settle,
  after_rebinding, Config, running, released, down, Step, go_on, wake, stop, expire, Reach, here,
  next,
}

-- A lease that is returned is ordered.
abbrev OnOk : Result LeaseError Lease → Type 0
OnOk (ok l) = IsOrdered l
OnOk (err e) = Unit {0}

>>=-OnOk :
    {S A : Type 0} (m : Act LeaseError S A) (f : A → Act LeaseError S Lease) (s : S)
    → ((a : A) (s : S) → OnOk (f a s).0)
    → OnOk ((m >>= f) s).0
>>=-OnOk {S} {A} m f s h = go (m s)
  where
    go : (res : Result LeaseError A × S) → OnOk (continue res.0 f res.1).0
    go (ok a, s') = h a s'
    go (err e, s') = tt

abbrev OnTurn : Turn → Type 0
OnTurn (straight st) = Unit {0}
OnTurn (sleeping st l t) = IsOrdered l
OnTurn expired = Unit {0}

module _ {S : Type 0} (w : Wire S) (client_id : Text) (resend_max : ℤ) where
  commit-OnOk : (ack : Packet) (s : S) → OnOk (commit w ack s).0
  unfolding commit
  commit-OnOk ack s = elim (Result-cases (parse_duration ack.options lease_time)) [
    | inl (lease, e) ↦ rw (commit, e) (lease_of-IsOrdered ack lease (w.now s).0)
    | inr (x, e) ↦ rw (commit, e) tt
  ]

  acquire-OnOk : (s : S) → OnOk (acquire w client_id resend_max s).0
  unfolding acquire
  acquire-OnOk s = >>=-OnOk w.new_client _ s λ a s1.
      >>=-OnOk (bring_up w client_id resend_max) _ s1 λ b s2.
        >>=-OnOk
          (backoff_retry w retries resend_max resend_delay0
            (dhcp_request w (request_options client_id) >>= accepted w))
          (commit w) s2 (commit-OnOk)

  recommit-OnOk :
      (l : Lease) (res : Result LeaseError Lease × S)
      → IsOrdered l
      → OnOk res.0
      → OnOk
          ((elim res.0 as (λ _. Act LeaseError S Lease) [ ok l' ↦ pure l' | err _ ↦ pure l ])
            res.1).0
  recommit-OnOk l (ok l', s) h k = k
  recommit-OnOk l (err e, s) h k = h

  renew-OnOk : (l : Lease) (s : S) → IsOrdered l → OnOk (renew w client_id resend_max l s).0
  unfolding renew
  renew-OnOk l s h = >>=-OnOk w.new_client _ s λ a s1.
      >>=-OnOk
        (backoff_retry w retries resend_max resend_delay0
          (dhcp_renew w l.ack (client_options client_id) >>= accepted w))
        _ s1 (λ ack s2. recommit-OnOk l (commit w ack s2) h (commit-OnOk ack s2))

  settle-OnTurn :
      (failed : S → Turn × S) (res : Result LeaseError Lease × S)
      → OnOk res.0
      → ((s : S) → OnTurn (failed s).0)
      → OnTurn (settle w client_id resend_max failed res).0
  settle-OnTurn failed (ok l, s) h k = h
  settle-OnTurn failed (err e, s) h k = k s

  after_rebinding-OnTurn :
      (l : Lease) (s : S) → IsOrdered l → OnTurn (after_rebinding w client_id resend_max l s).0
  after_rebinding-OnTurn l s h = elim (Bool-cases (ltb_ℤ l.expire_at (w.now s).0)) [
    | inl e ↦ rw e tt
    | inr e ↦ rw e h
  ]

  turn-OnTurn :
      (st : LeaseState) (l : Lease) (s : S)
      → IsOrdered l
      → OnTurn (turn w client_id resend_max st l s).0
  unfolding turn
  turn-OnTurn bound l s h = elim (Bool-cases (ltb_ℤ (w.now s).0 l.renewal_at)) [
    | inl e ↦ rw (turn, e) h
    | inr e ↦ rw (turn, e) tt
  ]
  turn-OnTurn renewing l s h =
      settle-OnTurn _ (renew w client_id resend_max l s) (renew-OnOk l s h) (λ s'. h)
  turn-OnTurn rebinding l s h =
      settle-OnTurn _ (acquire w client_id resend_max s) (acquire-OnOk s)
        (λ s'. after_rebinding-OnTurn l s' h)

  -- The lease of a running loop is ordered.
  abbrev pub Holds : Config w client_id resend_max → Type 0
  Holds (running st l s) = IsOrdered l
  Holds (released s) = Unit {0}
  Holds (down s) = Unit {0}

  Step-Holds :
      {c d : Config w client_id resend_max} → Step w client_id resend_max c d → Holds c → Holds d
  Step-Holds (go_on st st' l s s' c d e) h = let k : IsOrdered l = rw c at h in rw d k
  Step-Holds (wake st st' l l' t s s' s'' c d e f) h =
      let k : IsOrdered l = rw c at h in
      let on_turn = turn-OnTurn st l s k in rw d (rw e at on_turn)
  Step-Holds (stop st st' l l' t s s' s'' c d e f) h = rw d tt
  Step-Holds (expire st l s s' c d e) h = rw d tt

  -- However the server, the clock and the stops come: where the lease of a loop has its times for
  -- renewing and rebinding no later than its expiration, so has the lease of every loop that is
  -- reached from it.
  pub Reach-Holds :
      {c d : Config w client_id resend_max} → Reach w client_id resend_max c d → Holds c → Holds d
  Reach-Holds here h = h
  Reach-Holds (next r st) h = Step-Holds st (Reach-Holds r h)
