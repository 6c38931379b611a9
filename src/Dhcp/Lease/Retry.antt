-- ===== src/Dhcp/Lease/Retry.antt =====
-- `backoffRetry`: it ends, and what it makes of a function that always fails.
use plugins.Prelude.{
  ℕ, zero, suc, ◌*◌, ◌^◌, ◌≤◌, ◌<◌, ◌≡◌, ◌⊎◌, inl, inr, refl, Result, ok, err, Text, arith, true,
  Bool-cases,
}
use plugins.Prelude.Int.{ℤ, pos, ltb_ℤ, wrap64}
use plugins.Prelude.Effects.{Act, fail, continue, ◌>>=◌}
use plugins.Dhcp.Options.{Options}
use plugins.Dhcp.Lease.{
  Wire, Packet, Lease, LeaseError, no_more_tries, out_of_fuel, double, backoff_retry, retries,
  resend_delay0, after_try, acquire, renew, add_options, bring_up, accepted, dhcp_request,
  dhcp_renew, request_options, client_options,
}

abbrev pub IsErr : {A : Type 0} → Result LeaseError A → Type 0
IsErr (ok a) = ⊥
IsErr (err e) = Unit {0}

-- Below half of the range a duration doubles without wrapping around.
double_lem : (n : ℕ) → n < 2 ^ 62 → double (pos n) ≡ pos (n * 2)
unfolding double wrap64
double_lem n h = ground arith

-- The two ways to end.
abbrev pub HasEnded : Result LeaseError Packet → Type 0
HasEnded r = ((p : Packet) × (r ≡ ok p)) ⊎ (r ≡ err no_more_tries)

module _ {S : Type 0} (w : Wire S) where
  after_try-HasEnded :
      (again : Act LeaseError S Packet) (base resend_max : ℤ) (res : Result LeaseError Packet × S)
      → (ltb_ℤ base resend_max ≡ true → (s : S) → HasEnded (again s).0)
      → HasEnded (after_try w again base resend_max res.0 res.1).0
  after_try-HasEnded again base resend_max (ok p, s) h = inl (p, refl)
  after_try-HasEnded again base resend_max (err e, s) h =
      elim (Bool-cases (ltb_ℤ base resend_max)) [
        | inl less ↦ rw less (h less (w.sleep base s))
        | inr enough ↦ rw enough (inr refl)
      ]

  -- Enough fuel: the delay reaches the limit by doubling.
  backoff_retry-HasEnded_from :
      (resend_max : ℕ) (f : Act LeaseError S Packet) (fuel base : ℕ) (s : S)
      → resend_max ≤ 2 ^ 62
      → resend_max ≤ base * 2 ^ fuel
      → HasEnded (backoff_retry w (suc fuel) (pos resend_max) (pos base) f s).0
  unfolding backoff_retry
  backoff_retry-HasEnded_from resend_max f zero base s b h =
      after_try-HasEnded (fail out_of_fuel) (pos base) (pos resend_max) (f s)
        (λ less s'. absurd (ground (arith, less)))
  backoff_retry-HasEnded_from resend_max f (suc fuel) base s b h =
      after_try-HasEnded (backoff_retry w (suc fuel) (pos resend_max) (double (pos base)) f)
        (pos base) (pos resend_max) (f s)
        λ less s'.
          rw (double_lem base (ground (arith, less)))
            (backoff_retry-HasEnded_from resend_max f fuel (base * 2) s' b (grind arith))

  -- With a limit of at most `2 ^ 62` nanoseconds the retries end, whatever the answers: with a packet
  -- or with the error that there are no more tries, and never for want of fuel.
  pub backoff_retry-HasEnded :
      (resend_max : ℕ) (f : Act LeaseError S Packet) (s : S)
      → resend_max ≤ 2 ^ 62
      → HasEnded (backoff_retry w retries (pos resend_max) resend_delay0 f s).0
  backoff_retry-HasEnded resend_max f s b =
      backoff_retry-HasEnded_from resend_max f 32 4000000000 s b (omega (arith, b))

  after_try-IsErr :
      (again : Act LeaseError S Packet) (base resend_max : ℤ) (res : Result LeaseError Packet × S)
      → IsErr res.0
      → ((s : S) → IsErr (again s).0)
      → IsErr (after_try w again base resend_max res.0 res.1).0
  after_try-IsErr again base resend_max (ok p, s) h k = elim h [ ]
  after_try-IsErr again base resend_max (err e, s) h k = elim (Bool-cases (ltb_ℤ base resend_max)) [
    | inl less ↦ rw less (k (w.sleep base s))
    | inr enough ↦ rw enough tt
  ]

  pub backoff_retry-IsErr :
      (fuel : ℕ) (base resend_max : ℤ) (f : Act LeaseError S Packet)
      → ((s : S) → IsErr (f s).0)
      → (s : S) → IsErr (backoff_retry w fuel resend_max base f s).0
  unfolding backoff_retry
  backoff_retry-IsErr zero base resend_max f h s = tt
  backoff_retry-IsErr (suc fuel) base resend_max f h s =
      after_try-IsErr (backoff_retry w fuel resend_max (double base) f) base resend_max (f s) (h s)
        (backoff_retry-IsErr fuel (double base) resend_max f h)

-- An action that goes on after one that fails, fails.
>>=-IsErr :
    {S A B : Type 0} (m : Act LeaseError S A) (f : A → Act LeaseError S B) (s : S)
    → IsErr (m s).0
    → IsErr ((m >>= f) s).0
>>=-IsErr {S} {A} m f s h = go (m s) h
  where
    go : (res : Result LeaseError A × S) → IsErr res.0 → IsErr (continue res.0 f res.1).0
    go (ok a, s') h = elim h [ ]
    go (err e, s') h = tt

-- An action fails if all that it goes on with fails.
>>=-IsErr_rest :
    {S A B : Type 0} (m : Act LeaseError S A) (f : A → Act LeaseError S B) (s : S)
    → ((a : A) (s : S) → IsErr (f a s).0)
    → IsErr ((m >>= f) s).0
>>=-IsErr_rest {S} {A} m f s h = go (m s)
  where
    go : (res : Result LeaseError A × S) → IsErr (continue res.0 f res.1).0
    go (ok a, s') = h a s'
    go (err e, s') = tt

module _ {S : Type 0} (w : Wire S) (client_id : Text) (resend_max : ℤ)
    (no_offer : (p : Packet) (s : S) → IsErr (w.get_offer p s).0)
    (no_answer : (p : Packet) (s : S) → IsErr (w.get_acknowledgement p s).0) where
  dhcp_request-IsErr : (opts : Options) (s : S) → IsErr (dhcp_request w opts s).0
  unfolding dhcp_request
  dhcp_request-IsErr opts s =
      let discover = add_options opts (w.discover_packet s) in
      >>=-IsErr_rest (w.send discover) _ s
        λ a s'. >>=-IsErr (w.get_offer discover) _ s' (no_offer discover s')

  dhcp_renew-IsErr : (ack : Packet) (opts : Options) (s : S) → IsErr (dhcp_renew w ack opts s).0
  unfolding dhcp_renew
  dhcp_renew-IsErr ack opts s =
      let request = add_options opts (w.renewal_packet ack) in
      >>=-IsErr_rest (w.send request) _ s
        λ a s'. >>=-IsErr (w.get_acknowledgement request) _ s' (no_answer request s')

  -- Without an answer of the server a lease is neither acquired nor renewed.
  pub acquire-IsErr : (s : S) → IsErr (acquire w client_id resend_max s).0
  unfolding acquire
  acquire-IsErr s =
      let request : Act LeaseError S Packet =
        dhcp_request w (request_options client_id) >>= accepted w in
      >>=-IsErr_rest w.new_client _ s λ a s1.
        >>=-IsErr_rest (bring_up w client_id resend_max) _ s1 λ b s2.
          >>=-IsErr (backoff_retry w retries resend_max resend_delay0 request) _ s2 (
            backoff_retry-IsErr w retries resend_delay0 resend_max request
              (λ s3.
                >>=-IsErr (dhcp_request w (request_options client_id)) (accepted w) s3
                  (dhcp_request-IsErr (request_options client_id) s3))
              s2)

  pub renew-IsErr : (l : Lease) (s : S) → IsErr (renew w client_id resend_max l s).0
  unfolding renew
  renew-IsErr l s =
      let request : Act LeaseError S Packet =
        dhcp_renew w l.ack (client_options client_id) >>= accepted w in
      >>=-IsErr_rest w.new_client _ s λ a s1.
        >>=-IsErr (backoff_retry w retries resend_max resend_delay0 request) _ s1 (
          backoff_retry-IsErr w retries resend_delay0 resend_max request
            (λ s2.
              >>=-IsErr (dhcp_renew w l.ack (client_options client_id)) (accepted w) s2
                (dhcp_renew-IsErr l.ack (client_options client_id) s2))
            s1)
