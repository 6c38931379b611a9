-- ===== src/Dhcp/Lease.antt =====
-- plugins/ipam/dhcp/lease.go and client.go: a lease, and the loop that maintains it.
--
-- The DHCP client library, netlink, the clock and the channel that stops a lease are a parameter,
-- `Wire`, over a state. Times are nanoseconds of 64 bits.
pub mod Times
pub mod Retry
use plugins.Prelude.{
  ℕ, zero, suc, ◌+◌, ◌-◌, ◌*◌, ◌/◌, ◌^◌, List, [], ◌∷◌, ◌++◌, Bool, true, false, not, Option, none,
  some, Result, ok, err, Text, ◌==◌, leb, ltb, if◌then◌else◌,
}
use plugins.Prelude.Int.{ℤ, pos, negsuc, ◌+ℤ◌, sub_ℕ, pos_part, neg_part, ltb_ℤ, wrap64, quot_ℕ}
use plugins.Prelude.Effects.{
  Act, pure, fail, lift, catch, continue, modify, check_that, ◌>>=◌, ◌>>◌, relabel,
}
use plugins.Net.{Ip, IpMask, IpNet}
use plugins.Dhcp.Options.{
  Options, Route, OptionError, lease_time, renewal_time, rebinding_time, parse_duration,
  parse_router, parse_routes, parse_cidr_routes, parse_subnet_mask,
}

pub data LeaseError : Type 0 where
  client_failed set_up_failed send_failed no_answer nacked no_more_tries bad_lease_time : LeaseError
  no_subnet_mask release_failed link_not_found out_of_fuel : LeaseError

-- A packet as the library's accessors show it.
pub record Packet : Type 0 where
  pub yiaddr : Ip
  pub message_type : ℕ
  pub options : Options

abbrev pub ack_type : ℕ
ack_type = 5

-- The packets that the library builds, and what the plugin does with the world.
pub record Wire (S : Type 0) : Type 0 where
  pub new_client : Act LeaseError S (Unit {0})
  pub link_by_name : Act LeaseError S (Unit {0})
  pub link_is_up : S → Bool
  pub link_set_up : Act LeaseError S (Unit {0})
  pub link_set_down : S → S
  pub discover_packet : S → Packet
  pub request_packet : Packet → Packet
  pub renewal_packet : Packet → Packet
  pub release_packet : Packet → Packet
  pub send : Packet → Act LeaseError S (Unit {0})
  pub get_offer : Packet → Act LeaseError S Packet
  pub get_acknowledgement : Packet → Act LeaseError S Packet
  -- to sleep for about a delay
  pub sleep : ℤ → S → S
  pub now : S → ℤ × S
  -- the `select` on a timer and the stop channel: true is the channel
  pub wait : ℤ → S → Bool × S

-- `DHCPLease` as `commit` leaves it; its other fields do not change.
pub record Lease : Type 0 where
  pub ack : Packet
  pub opts : Options
  pub renewal_at : ℤ
  pub rebinding_at : ℤ
  pub expire_at : ℤ

abbrev pub add_options : Options → Packet → Packet
add_options opts p = record p { options = p.options ++ opts }

-- twice a duration, in 64 bits
unfoldable pub double : ℤ → ℤ
double (pos n) = wrap64 (n * 2)
double (negsuc n) = wrap64 ((2 ^ 64 - 1 - n) * 2)

-- The delays that `commit` puts after the present: the defaults are a part of the lease time where
-- the option is missing, or does not fit.
abbrev pub default_rebinding : ℕ → ℤ
default_rebinding lease = quot_ℕ (wrap64 (lease * 85)) 100

unfoldable pub rebinding_delay : ℕ → Result OptionError ℕ → ℤ
rebinding_delay lease (err _) = default_rebinding lease
rebinding_delay lease (ok t) = if ltb lease t then default_rebinding lease else pos t

unfoldable pub renewal_delay : ℕ → ℤ → Result OptionError ℕ → ℤ
renewal_delay lease rebinding (err _) = pos (lease / 2)
renewal_delay lease rebinding (ok t) = if ltb_ℤ rebinding (pos t) then pos (lease / 2) else pos t

-- the lease that `commit` makes of an acknowledgement, at a time
unfoldable pub lease_of : Packet → ℕ → ℤ → Lease
lease_of ack lease t =
    let rebinding = rebinding_delay lease (parse_duration ack.options rebinding_time) in
    let renewal = renewal_delay lease rebinding (parse_duration ack.options renewal_time) in
    record {
      ack = ack;
      opts = ack.options;
      renewal_at = t +ℤ renewal;
      rebinding_at = t +ℤ rebinding;
      expire_at = t +ℤ pos lease;
    }

-- the options that name the client
abbrev pub client_options : Text → Options
client_options id = (61, id) ∷ []

abbrev pub request_options : Text → Options
request_options id = (61, id) ∷ (55, 3 ∷ 1 ∷ []) ∷ []

-- `resendDelay0`, 4 seconds
abbrev pub resend_delay0 : ℤ
resend_delay0 = pos 4000000000

-- `baseDelay` starts at 4 seconds and doubles up to `resendMax`: 33 rounds are enough.
abbrev pub retries : ℕ
retries = 33

module _ {S : Type 0} (w : Wire S) where
  -- `DhcpRequest`: whether the server acknowledged, with its packet
  unfoldable pub dhcp_request : Options → Act LeaseError S (Bool × Packet)
  dhcp_request opts s =
      let discover = add_options opts (w.discover_packet s) in
      let go : Act LeaseError S (Bool × Packet) =
        w.send discover
        >> (w.get_offer discover >>= λ offer.
            let request = add_options opts (w.request_packet offer) in
            w.send request
            >> (w.get_acknowledgement request >>= λ ack.
                pure (ack.message_type == ack_type, ack))) in
      go s

  -- `DhcpRenew`
  unfoldable pub dhcp_renew : Packet → Options → Act LeaseError S (Bool × Packet)
  dhcp_renew ack opts = do
    let request = add_options opts (w.renewal_packet ack)
    w.send request
    new_ack ← w.get_acknowledgement request
    pure (new_ack.message_type == ack_type, new_ack)

  -- `DhcpRelease`
  unfoldable pub dhcp_release : Packet → Options → Act LeaseError S (Unit {0})
  dhcp_release ack opts = w.send (add_options opts (w.release_packet ack))

  -- an acknowledgement, or the error that the callers make of a refusal
  abbrev pub accepted : Bool × Packet → Act LeaseError S Packet
  accepted (true, ack) = pure ack
  accepted (false, ack) = fail nacked

  -- what a round of `backoffRetry` does with the result of its function
  abbrev pub after_try :
      Act LeaseError S Packet → ℤ → ℤ → Result LeaseError Packet → Act LeaseError S Packet
  after_try again base resend_max (ok pkt) s = (ok pkt, s)
  after_try again base resend_max (err _) s =
      if ltb_ℤ base resend_max then again (w.sleep base s) else (err no_more_tries, w.sleep base s)

  -- `backoffRetry`, with fuel for its rounds
  unfoldable pub backoff_retry : ℕ → ℤ → ℤ → Act LeaseError S Packet → Act LeaseError S Packet
  backoff_retry zero resend_max base f = fail out_of_fuel
  backoff_retry (suc fuel) resend_max base f =
      let again = backoff_retry fuel resend_max (double base) f in
      catch f (after_try again base resend_max)

  -- `commit`
  unfoldable pub commit : Packet → Act LeaseError S Lease
  commit ack = elim (parse_duration ack.options lease_time) [
    | err _ ↦ fail bad_lease_time
    | ok lease ↦ λ s. let (t, s') = w.now s in (ok (lease_of ack lease t), s')
  ]

  module _ (client_id : Text) (resend_max : ℤ) where
    abbrev pub bring_up : Act LeaseError S (Unit {0})
    bring_up s = if w.link_is_up s then (ok tt, s) else w.link_set_up s

    -- `acquire`; an error leaves the lease as it is
    unfoldable pub acquire : Act LeaseError S Lease
    acquire = do
      w.new_client
      bring_up
      ack ←
          backoff_retry retries resend_max resend_delay0
            (dhcp_request (request_options client_id) >>= accepted)
      commit ack

    -- `AcquireLease`: what its goroutine does until it reports
    unfoldable pub acquire_lease : Act LeaseError S Lease
    acquire_lease = relabel link_not_found w.link_by_name >> acquire

    -- `renew`; it ignores an error of `commit`, which leaves the lease as it is
    unfoldable pub renew : Lease → Act LeaseError S Lease
    renew l = do
      w.new_client
      ack ←
          backoff_retry retries resend_max resend_delay0
            (dhcp_renew l.ack (client_options client_id) >>= accepted)
      catch (commit ack) λ r. elim r [ ok l' ↦ pure l' | err _ ↦ pure l ]

    -- `release`
    unfoldable pub release : Lease → Act LeaseError S (Unit {0})
    release l = do
      w.new_client
      relabel release_failed (dhcp_release l.ack (client_options client_id))

-- `IPNet`
unfoldable pub ip_net : Lease → Result LeaseError IpNet
ip_net l = elim (parse_subnet_mask l.opts) [
  | none ↦ err no_subnet_mask
  | some mask ↦ ok (record { ip = l.ack.yiaddr; mask = mask })
]

-- `Gateway`
unfoldable pub gateway : Lease → Option Ip
gateway l = parse_router l.opts

abbrev default_route : Option Ip → List Route
default_route none = []
default_route (some gw) =
    record { dst = record { ip = 0 ∷ 0 ∷ 0 ∷ 0 ∷ []; mask = 0 ∷ 0 ∷ 0 ∷ 0 ∷ [] }; gw = some gw }
    ∷ []

-- `Routes`
unfoldable pub routes : Lease → List Route
routes l = elim (parse_cidr_routes l.opts) [
  | r ∷ rs ↦ r ∷ rs
  | [] ↦ parse_routes l.opts ++ default_route (gateway l)
]
