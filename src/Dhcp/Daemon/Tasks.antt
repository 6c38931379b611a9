-- ===== src/Dhcp/Daemon/Tasks.antt =====
-- Which goroutines the daemon's calls leave behind.
use plugins.Prelude.{
  ℕ, ◌+◌, ◌<◌, ◌≡◌, refl, ap, ◌∙◌, List, [], ◌∷◌, none, some, Result, ok, err, Text, text_eq_self,
  All, arith, Result-cases, inl, inr,
}
use plugins.Net.{IpNet}
use plugins.Dhcp.Lease.{Lease, LeaseError, ip_net, gateway, routes}
use plugins.Dhcp.Daemon.{
  Daemon, Allocated, generate_client_id, get_lease, set_lease, clear_lease, stop, allocate, release,
}

-- Every lease and task is older than the next one.
pub record IsFresh (d : Daemon) : Type 0 where
  pub old_tasks : All (λ t. t < d.fresh) d.tasks
  pub old_leases : All (λ e. e.1 < d.fresh) d.leases

stop_new : (n : ℕ) (tasks : List ℕ) → All (λ t. t < n) tasks → stop n tasks ≡ tasks
unfolding stop
stop_new n [] h = refl
stop_new n (t ∷ tasks) h = ground (arith, stop_new n tasks h.1)

get_lease-set_lease :
    (c : Text) (l : ℕ) (m : List (Text × ℕ)) → get_lease c (set_lease c l m) ≡ some l
unfolding get_lease set_lease
get_lease-set_lease c l [] = ground (arith, text_eq_self c)
get_lease-set_lease c l ((d, k) ∷ m) = ground (arith, text_eq_self c, get_lease-set_lease c l m)

get_lease-clear_lease : (c : Text) (m : List (Text × ℕ)) → get_lease c (clear_lease c m) ≡ none
unfolding get_lease clear_lease
get_lease-clear_lease c [] = refl
get_lease-clear_lease c ((d, k) ∷ m) = ground (arith, get_lease-clear_lease c m)

module _ (name container_id if_name : Text) (d : Daemon) where
  abbrev pub allocated : Lease → Daemon
  allocated l = (allocate (ok name) container_id if_name (ok l) d).1

  abbrev pub after : Lease → Daemon
  after l = (release (ok name) container_id if_name (allocated l)).1

  pub allocate-ok :
      (l : Lease) (ipn : IpNet)
      → ip_net l ≡ ok ipn
      → allocate (ok name) container_id if_name (ok l) d ≡ (
        ok (record { address = ipn; gateway_ip = gateway l; route_list = routes l }),
        record {
          leases = set_lease (generate_client_id container_id name if_name) d.fresh d.leases;
          tasks = d.fresh ∷ d.tasks;
          fresh = d.fresh + 1;
        },
      )
  unfolding allocate
  allocate-ok l ipn mask = rw (allocate, mask) refl

  allocate-no_mask :
      (l : Lease) (e : LeaseError)
      → ip_net l ≡ err e
      → allocate (ok name) container_id if_name (ok l) d ≡ (
        err e,
        record { leases = d.leases; tasks = stop d.fresh (d.fresh ∷ d.tasks); fresh = d.fresh + 1 },
      )
  unfolding allocate
  allocate-no_mask l e mask = rw (allocate, mask) refl

  stop_started : IsFresh d → stop d.fresh (d.fresh ∷ d.tasks) ≡ d.tasks
  unfolding stop
  stop_started fresh = ground (arith, stop_new d.fresh d.tasks fresh.old_tasks)

  -- A call of Allocate that fails leaves the leases as they were and no goroutine more.
  pub allocate-err :
      (acquired : Result LeaseError Lease) (e : LeaseError) (d' : Daemon)
      → IsFresh d
      → allocate (ok name) container_id if_name acquired d ≡ (err e, d')
      → (d'.leases ≡ d.leases) × (d'.tasks ≡ d.tasks)
  unfolding allocate
  allocate-err (err x) e d' fresh h = (cc, cc)
  allocate-err (ok l) e d' fresh h =
      let stopped = stop_started fresh in
      elim (Result-cases (ip_net l)) [
        | inl (v, q) ↦ let result = allocate-ok l v q in absurd cc
        | inr (x, q) ↦ let result = allocate-no_mask l x q in (cc, cc)
      ]

  module _ (l : Lease) (ipn : IpNet) (mask : ip_net l ≡ ok ipn) where
    after_lem : after l ≡ record {
      leases =
          clear_lease
            (generate_client_id container_id name if_name)
            (set_lease (generate_client_id container_id name if_name) d.fresh d.leases);
      tasks = stop d.fresh (d.fresh ∷ d.tasks);
      fresh = d.fresh + 1;
    }
    unfolding release
    after_lem =
        ap
          (λ (r : Result LeaseError Allocated × Daemon).
            (release (ok name) container_id if_name r.1).1)
          (allocate-ok l ipn mask)
        ∙ rw
            (
              release,
              get_lease-set_lease (generate_client_id container_id name if_name) d.fresh d.leases,
            )
            refl

    -- Release after a successful Allocate of the same container, network and interface removes the
    -- lease and leaves the goroutines that ran before.
    pub release-allocate :
        IsFresh d
        → (get_lease (generate_client_id container_id name if_name) (after l).leases ≡ none)
          × ((after l).tasks ≡ d.tasks)
    release-allocate fresh = rw after_lem (
      get_lease-clear_lease (generate_client_id container_id name if_name)
          (set_lease (generate_client_id container_id name if_name) d.fresh d.leases),
      stop_started fresh,
    )
