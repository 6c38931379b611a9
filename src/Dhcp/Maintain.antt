-- ===== src/Dhcp/Maintain.antt =====
-- `maintain` of plugins/ipam/dhcp/lease.go: the loop of a lease's goroutine, as a state machine.
pub mod Expiry
pub mod Reached
pub mod Held
use plugins.Prelude.{
  ℕ, zero, suc, ◌+◌, ◌≡◌, Bool, true, false, Result, ok, err, Text, if◌then◌else◌,
}
use plugins.Prelude.Int.{ℤ, pos, negsuc, ◌+ℤ◌, sub_ℕ, pos_part, neg_part, ltb_ℤ}
use plugins.Prelude.Effects.{Act}
use plugins.Dhcp.Lease.{Wire, Lease, LeaseError, acquire, renew, release}

pub data LeaseState : Type 0 where
  bound renewing rebinding : LeaseState

-- What one run of the switch does: to go on at once in another state, to wait, or to end with the
-- interface down.
pub data Turn : Type 0 where
  straight : LeaseState → Turn
  sleeping : LeaseState → Lease → ℤ → Turn
  expired : Turn

-- the difference of two times
abbrev pub until : ℤ → ℤ → ℤ
until a b = sub_ℕ (pos_part a + neg_part b) (neg_part a + pos_part b)

module _ {S : Type 0} (w : Wire S) (client_id : Text) (resend_max : ℤ) where
  -- after a failed renewal
  abbrev pub after_renewal : Lease → S → Turn × S
  after_renewal l s =
      let (t, s') = w.now s in
      (sleeping (if ltb_ℤ l.rebinding_at t then rebinding else renewing) l (pos 0), s')

  -- after a failed rebinding; the interface goes down where the lease has expired
  abbrev pub after_rebinding : Lease → S → Turn × S
  after_rebinding l s =
      let (t, s') = w.now s in
      if ltb_ℤ l.expire_at t
      then (expired, w.link_set_down s')
      else (sleeping rebinding l (pos 0), s')

  abbrev pub settle : (S → Turn × S) → Result LeaseError Lease × S → Turn × S
  settle failed (ok l', s) = (sleeping bound l' (pos 0), s)
  settle failed (err _, s) = failed s

  -- The switch.
  unfoldable pub turn : LeaseState → Lease → S → Turn × S
  turn bound l s =
      let (t, s') = w.now s in
      if ltb_ℤ t l.renewal_at
      then (sleeping bound l (until l.renewal_at t), s')
      else (straight renewing, s')
  turn renewing l s = settle (after_renewal l) (renew w client_id resend_max l s)
  turn rebinding l s = settle (after_rebinding l) (acquire w client_id resend_max s)

  -- The lease's goroutine: it runs, it has released the lease after a stop, or it has taken the
  -- interface down.
  pub data Config : Type 0 where
    running : LeaseState → Lease → S → Config
    released : S → Config
    down : S → Config

  pub data Step (c d : Config) : Type 0 where
    go_on :
        (st st' : LeaseState) (l : Lease) (s s' : S)
        → c ≡ running st l s
        → d ≡ running st' l s'
        → turn st l s ≡ (straight st', s')
        → Step c d
    wake :
        (st st' : LeaseState) (l l' : Lease) (t : ℤ) (s s' s'' : S)
        → c ≡ running st l s
        → d ≡ running st' l' s''
        → turn st l s ≡ (sleeping st' l' t, s')
        → w.wait t s' ≡ (false, s'')
        → Step c d
    stop :
        (st st' : LeaseState) (l l' : Lease) (t : ℤ) (s s' s'' : S)
        → c ≡ running st l s
        → d ≡ released (release w client_id resend_max l' s'').1
        → turn st l s ≡ (sleeping st' l' t, s')
        → w.wait t s' ≡ (true, s'')
        → Step c d
    expire :
        (st : LeaseState) (l : Lease) (s s' : S)
        → c ≡ running st l s
        → d ≡ down s'
        → turn st l s ≡ (expired, s')
        → Step c d

  pub data Reach (c : Config) : Config → Type 0 where
    here : Reach c c
    next : {d e : Config} → Reach c d → Step d e → Reach c e
