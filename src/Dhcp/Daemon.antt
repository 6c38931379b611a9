-- ===== src/Dhcp/Daemon.antt =====
-- plugins/ipam/dhcp/daemon.go: the leases that the daemon keeps for its clients.
--
-- A pointer to a lease is a number; `tasks` are the leases whose goroutine runs. What `AcquireLease`
-- and the decoding of the configuration return is an argument of a call. A call has the mutex.
pub mod Tasks
pub mod Leaks
use plugins.Prelude.{
  ℕ, zero, suc, ◌+◌, List, [], ◌∷◌, ◌++◌, Bool, true, false, Option, none, some, Result, ok, err,
  Text, text, text_eq, ◌==◌, if◌then◌else◌,
}
use plugins.Net.{Ip, IpNet}
use plugins.Dhcp.Options.{Route}
use plugins.Dhcp.Lease.{Lease, LeaseError, ip_net, gateway, routes}

pub record Daemon : Type 0 where
  pub leases : List (Text × ℕ)
  pub tasks : List ℕ
  pub fresh : ℕ

-- the part of a CNI result that the daemon fills in
pub record Allocated : Type 0 where
  pub address : IpNet
  pub gateway_ip : Option Ip
  pub route_list : List Route

unfoldable pub generate_client_id : Text → Text → Text → Text
generate_client_id container_id net_name if_name =
    container_id ++ (text "/" ++ (net_name ++ (text "/" ++ if_name)))

unfoldable pub get_lease : Text → List (Text × ℕ) → Option ℕ
get_lease client_id [] = none
get_lease client_id ((c, l) ∷ leases) =
    if text_eq c client_id then some l else get_lease client_id leases

unfoldable pub set_lease : Text → ℕ → List (Text × ℕ) → List (Text × ℕ)
set_lease client_id l [] = (client_id, l) ∷ []
set_lease client_id l ((c, k) ∷ leases) =
    if text_eq c client_id then (client_id, l) ∷ leases else (c, k) ∷ set_lease client_id l leases

unfoldable pub clear_lease : Text → List (Text × ℕ) → List (Text × ℕ)
clear_lease client_id [] = []
clear_lease client_id ((c, k) ∷ leases) =
    let rest = clear_lease client_id leases in if text_eq c client_id then rest else (c, k) ∷ rest

-- `Stop` closes the channel at most once and waits for the goroutine, which then has ended.
unfoldable pub stop : ℕ → List ℕ → List ℕ
stop l [] = []
stop l (t ∷ tasks) = let rest = stop l tasks in if t == l then rest else t ∷ rest

-- `AcquireLease` starts the goroutine, which ends again where the lease is not acquired.
abbrev pub started : Daemon → Daemon
started d = record { leases = d.leases; tasks = d.fresh ∷ d.tasks; fresh = d.fresh + 1 }

module _ (net_name : Result LeaseError Text) (container_id if_name : Text) where
  abbrev pub keep :
      Text → Lease → Daemon → Result LeaseError IpNet → Result LeaseError Allocated × Daemon
  keep client_id l d (err e) =
      (err e, record d { tasks = stop d.fresh (d.fresh ∷ d.tasks); fresh = d.fresh + 1 })
  keep client_id l d (ok ipn) = (
    ok (record { address = ipn; gateway_ip = gateway l; route_list = routes l }),
    record (started d) { leases = set_lease client_id d.fresh d.leases },
  )

  -- `Allocate`
  unfoldable pub allocate : Result LeaseError Lease → Daemon → Result LeaseError Allocated × Daemon
  allocate acquired d = elim net_name [
    | err e ↦ (err e, d)
    | ok name ↦ elim acquired [
      | err e ↦ (err e, d)
      | ok l ↦ keep (generate_client_id container_id name if_name) l d (ip_net l)
    ]
  ]

  abbrev pub stop_lease : Text → Option ℕ → Daemon → Daemon
  stop_lease client_id none d = d
  stop_lease client_id (some l) d = record d {
    leases = clear_lease client_id d.leases;
    tasks = stop l d.tasks;
  }

  -- `Release`
  unfoldable pub release : Daemon → Result LeaseError (Unit {0}) × Daemon
  release d = elim net_name [
    | err e ↦ (err e, d)
    | ok name ↦
        let client_id = generate_client_id container_id name if_name in
        (ok tt, stop_lease client_id (get_lease client_id d.leases) d)
  ]
