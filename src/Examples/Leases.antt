-- ===== src/Examples/Leases.antt =====
-- Leases, with a server that answers each packet alike or not at all.
use plugins.Prelude.{
  length, ℕ, ◌+◌, ◌*◌, ◌/◌, ◌≡◌, refl, List, [], ◌∷◌, true, false, Option, none, some, text, arith,
  map,
}
use plugins.Prelude.Int.{ℤ, pos, ◌<ℤ◌, ◌+ℤ◌, wrap64}
use plugins.Prelude.Effects.{Act, pure, fail}
use plugins.Net.{IpNet}
use plugins.Dhcp.Options.{
  Options, option, missing, parse_duration, parse_cidr_routes, cidr_routes, octets,
  parse_subnet_mask,
}
use plugins.Dhcp.Options.Routes.{Entry, route_of, parse_cidr_routes-encode}
use plugins.Dhcp.Lease.{
  Packet, Wire, Lease, LeaseError, no_answer, backoff_retry, retries, resend_delay0, lease_of,
  default_rebinding, rebinding_delay, renewal_delay, acquire, renew, commit, dhcp_request,
  dhcp_renew, double, ip_net,
}
use plugins.Dhcp.Lease.Times.{IsOrdered, default_rebinding_overflow, lease_of-IsOrdered}
use plugins.Dhcp.Lease.Retry.{HasEnded, backoff_retry-HasEnded}
use plugins.Dhcp.Maintain.{
  bound, renewing, rebinding, running, turn, here, next, go_on, wake, expire,
}
use plugins.Dhcp.Maintain.Expiry.{HasGivenUp, Step-down}
use plugins.Dhcp.Maintain.Held.{IsHeld, Reach-IsHeld}
use plugins.Dhcp.Maintain.Reached.{Reach-Holds}
use plugins.Dhcp.Daemon.{Daemon, allocate, release, get_lease, generate_client_id}
use plugins.Dhcp.Daemon.Leaks.{allocations, release-allocations}
use plugins.Dhcp.Daemon.Tasks.{after, release-allocate}

-- 10.1.0.0/16 through 10.0.0.7, and a default route
abbrev entries : List Entry
entries =
    record { width = 16; network = 10 ∷ 1 ∷ []; gateway = 10 ∷ 0 ∷ 0 ∷ 7 ∷ [] }
    ∷ record { width = 0; network = []; gateway = 10 ∷ 0 ∷ 0 ∷ 1 ∷ [] }
    ∷ []

abbrev with_routes : Options
with_routes =
    (1, 255 ∷ 255 ∷ 255 ∷ 0 ∷ [])
    ∷ (121, 16 ∷ 10 ∷ 1 ∷ 10 ∷ 0 ∷ 0 ∷ 7 ∷ 0 ∷ 10 ∷ 0 ∷ 0 ∷ 1 ∷ 9 ∷ [])
    ∷ []

abbrev second : ℕ
second = 1000000000

-- an hour
abbrev with_lease_time : Options
with_lease_time = (51, 0 ∷ 0 ∷ 14 ∷ 16 ∷ []) ∷ with_routes

abbrev ack_of : Options → Packet
ack_of opts = record { yiaddr = 10 ∷ 0 ∷ 0 ∷ 2 ∷ []; message_type = 5; options = opts }

abbrev answer_with : Option Packet → Packet → Act LeaseError ℕ Packet
answer_with none p = fail no_answer
answer_with (some answer) p = pure answer

-- The state is a clock, which each reading moves on.
abbrev wire : Option Packet → Wire ℕ
wire answer = record {
  new_client = pure tt;
  link_by_name = pure tt;
  link_is_up = λ s. true;
  link_set_up = pure tt;
  link_set_down = λ s. s + 1000;
  discover_packet = λ s. ack_of [];
  request_packet = λ p. p;
  renewal_packet = λ p. p;
  release_packet = λ p. p;
  send = λ p. pure tt;
  get_offer = answer_with answer;
  get_acknowledgement = answer_with answer;
  sleep = λ t s. s + 1;
  now = λ s. (pos (100 + s), s + 1);
  wait = λ t s. (false, s);
}

abbrev old_lease : Lease
old_lease = record {
  ack = ack_of [];
  opts = [];
  renewal_at = pos 10;
  rebinding_at = pos 20;
  expire_at = pos 30;
}

abbrev limit : ℤ
limit = pos 62000000000

program : Unit {0}
unfolding option parse_duration ◌+ℤ◌ wrap64 double backoff_retry commit acquire renew dhcp_request
    dhcp_renew turn lease_of rebinding_delay renewal_delay allocate release get_lease
    generate_client_id parse_subnet_mask ip_net octets cidr_routes parse_cidr_routes
program = tt

parse_cidr_routes-encode_example : parse_cidr_routes with_routes ≡ map route_of entries
unfolding program
parse_cidr_routes-encode_example =
    parse_cidr_routes-encode with_routes entries (9 ∷ []) refl
      (
        record { width_bound = omega arith; network_length = refl; gateway_length = refl },
        (record { width_bound = omega arith; network_length = refl; gateway_length = refl }, tt),
      )
      (omega arith)

backoff_retry-HasEnded_example :
    HasEnded (backoff_retry (wire none) retries limit resend_delay0 (fail no_answer) 0).0
backoff_retry-HasEnded_example =
    backoff_retry-HasEnded (wire none) 62000000000 (fail no_answer) 0 (omega arith)

-- a lease without an end
default_rebinding_overflow_example :
    default_rebinding (4294967295 * second) <ℤ pos (4294967295 * second * 85 / 100)
default_rebinding_overflow_example = default_rebinding_overflow (4294967295 * second) (omega arith)

Step-down_example :
    (rebinding ≡ rebinding) × HasGivenUp (wire none) (text "c") limit old_lease 0 1006
unfolding program
Step-down_example =
    Step-down (wire none) (text "c") limit rebinding old_lease 0 1006
      (expire rebinding old_lease 0 1006 refl refl refl)

Reach-Holds_example : IsOrdered (lease_of (ack_of with_lease_time) (3600 * second) (pos 100))
unfolding program
Reach-Holds_example =
    let l = lease_of (ack_of with_lease_time) (3600 * second) (pos 100) in
    Reach-Holds (wire none) (text "c") limit
      (next here (go_on bound renewing l (1800 * second) (1800 * second + 1) refl refl refl))
      (lease_of-IsOrdered (ack_of with_lease_time) (3600 * second) (pos 100))

Reach-IsHeld_example :
    IsHeld (wire (some (ack_of with_routes))) (text "c") limit old_lease (running bound old_lease 1)
unfolding program
Reach-IsHeld_example =
    Reach-IsHeld (wire (some (ack_of with_routes))) (text "c") limit (λ s. refl) (λ p s. refl)
      (λ p s.
        (ack_of with_routes, refl, record { accepts = refl; error = missing; timeless = refl }))
      old_lease 0 (running bound old_lease 1)
      (next (next here (go_on bound renewing old_lease 0 1 refl refl refl))
        (wake renewing bound old_lease old_lease (pos 0) 1 1 1 refl refl refl refl))

abbrev new_lease : Lease
new_lease = record {
  ack = ack_of with_lease_time;
  opts = with_lease_time;
  renewal_at = pos 10;
  rebinding_at = pos 20;
  expire_at = pos 30;
}

abbrev no_lease : Daemon
no_lease = record { leases = []; tasks = 0 ∷ []; fresh = 1 }

abbrev mask_24 : IpNet
mask_24 = record { ip = 10 ∷ 0 ∷ 0 ∷ 2 ∷ []; mask = 255 ∷ 255 ∷ 255 ∷ 0 ∷ [] }

release-allocate_example :
    let d' = after (text "net") (text "c") (text "eth0") no_lease new_lease in
    (get_lease (generate_client_id (text "c") (text "net") (text "eth0")) d'.leases ≡ none)
    × (d'.tasks ≡ no_lease.tasks)
unfolding program
release-allocate_example =
    release-allocate (text "net") (text "c") (text "eth0") no_lease new_lease mask_24 refl
      (record { old_tasks = (omega arith, tt); old_leases = tt })

release-allocations_example :
    let d = allocations (text "net") (text "c") (text "eth0") (new_lease ∷ []) no_lease in
    let d' = after (text "net") (text "c") (text "eth0") d new_lease in
    (get_lease (generate_client_id (text "c") (text "net") (text "eth0")) d'.leases ≡ none)
    × (length d'.tasks ≡ length no_lease.tasks + 1)
unfolding program
release-allocations_example =
    release-allocations (text "net") (text "c") (text "eth0") (new_lease ∷ []) new_lease no_lease
      ((mask_24, refl), tt) (mask_24, refl)
      (record { old_tasks = (omega arith, tt); old_leases = tt })
