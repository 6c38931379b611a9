-- ===== src/Dhcp/Daemon/Leaks.antt =====
-- The goroutines that repeated calls of Allocate leave behind: `setLease` of
-- plugins/ipam/dhcp/daemon.go does not stop the lease that it replaces.
use mathlib.Core.Path.{subst}
use plugins.Prelude.{
  ℕ, ◌+◌, ◌<◌, ◌≡◌, ap, sym, ◌∙◌, List, [], ◌∷◌, none, ok, Text, All, length, arith,
}
use plugins.Net.{IpNet}
use plugins.Dhcp.Lease.{Lease, ip_net}
use plugins.Dhcp.Daemon.{Daemon, generate_client_id, get_lease, set_lease}
use plugins.Dhcp.Daemon.Tasks.{IsFresh, allocated, after, allocate-ok, release-allocate}

-- A lease with a mask, as Allocate returns it to the client.
abbrev pub HasNet : Lease → Type 0
HasNet l = (ipn : IpNet) × (ip_net l ≡ ok ipn)

below-suc : (n : ℕ) (ts : List ℕ) → All (λ t. t < n) ts → All (λ t. t < n + 1) ts
below-suc n [] h = tt
below-suc n (t ∷ ts) h = (omega (arith, h.0), below-suc n ts h.1)

below-set_lease :
    (c : Text) (n : ℕ) (m : List (Text × ℕ))
    → All (λ e. e.1 < n) m
    → All (λ e. e.1 < n + 1) m × All (λ e. e.1 < n + 1) (set_lease c n m)
unfolding set_lease
below-set_lease c n [] h = (tt, (omega arith, tt))
below-set_lease c n ((d, k) ∷ m) h =
    let (rest, put) = below-set_lease c n m h.1 in
    let less : k < n + 1 = omega (arith, h.0) in
    let new : n < n + 1 = omega arith in ((less, rest), ground arith)

module _ (name container_id if_name : Text) where
  -- The daemon after successful calls of Allocate for one client, one after another.
  abbrev pub allocations : List Lease → Daemon → Daemon
  allocations [] d = d
  allocations (l ∷ ls) d = allocations ls (allocated name container_id if_name d l)

  allocated-IsFresh :
      (d : Daemon) (l : Lease)
      → HasNet l
      → IsFresh d
      → IsFresh (allocated name container_id if_name d l)
        × (length (allocated name container_id if_name d l).tasks ≡ length d.tasks + 1)
  allocated-IsFresh d l (ipn, mask) fresh =
      let started : Daemon = record {
        leases = set_lease (generate_client_id container_id name if_name) d.fresh d.leases;
        tasks = d.fresh ∷ d.tasks;
        fresh = d.fresh + 1;
      } in
      let is_started : allocated name container_id if_name d l ≡ started =
        ap (λ r. r.1) (allocate-ok name container_id if_name d l ipn mask) in
      let is_fresh : IsFresh started = record {
        old_tasks = (omega arith, below-suc d.fresh d.tasks fresh.old_tasks);
        old_leases = (below-set_lease _ d.fresh d.leases fresh.old_leases).1;
      } in
      let counted : length started.tasks ≡ length d.tasks + 1 = omega arith in
      subst (λ z. IsFresh z × (length z.tasks ≡ length d.tasks + 1)) (sym is_started)
        (is_fresh, counted)

  allocations-IsFresh :
      (ls : List Lease) (d : Daemon)
      → All HasNet ls
      → IsFresh d
      → IsFresh (allocations ls d) × (length (allocations ls d).tasks ≡ length d.tasks + length ls)
  allocations-IsFresh [] d h fresh = (fresh, omega arith)
  allocations-IsFresh (l ∷ ls) d h fresh =
      let (fresh', one) = allocated-IsFresh d l h.0 fresh in
      let (fresh'', more) =
        allocations-IsFresh ls (allocated name container_id if_name d l) h.1 fresh' in
      (fresh'', omega (arith, one, more))

  -- Where Allocate has succeeded for one container, network and interface some times and then once
  -- more, Release removes the lease and leaves as many goroutines more than there were before as the
  -- calls before the last.
  pub release-allocations :
      (ls : List Lease) (l : Lease) (d : Daemon)
      → All HasNet ls
      → HasNet l
      → IsFresh d
      → let d' = after name container_id if_name (allocations ls d) l in
        (get_lease (generate_client_id container_id name if_name) d'.leases ≡ none)
        × (length d'.tasks ≡ length d.tasks + length ls)
  release-allocations ls l d h (ipn, mask) fresh =
      let (fresh', count) = allocations-IsFresh ls d h fresh in
      let (gone, tasks) =
        release-allocate name container_id if_name (allocations ls d) l ipn mask fresh' in
      (gone, ap length tasks ∙ count)
