-- ===== src/HostLocal/Store.antt =====
-- host-local/backend/store.go: the interface of a store of reservations, over the store's state.
-- `Lock`, `Unlock` and `Close` do not show in the state: a call of the model has the lock, and the
-- allocator ignores what they return.
use plugins.Prelude.{List, Bool, true, false, Option, ◌≡◌, Text, Result, ok, err}
use plugins.Net.{Ip, equal}
use plugins.HostLocal.Types.{Error, io_failure}

pub record Store (S : Type 0) : Type 0 where
  pub reserve : Text → Text → Ip → Text → S → Result Error Bool × S
  pub last_reserved_ip : Text → S → Result Error (Option Ip)
  pub release : Ip → S → Result Error (Unit {0}) × S
  pub release_by_id : Text → Text → S → Result Error (Unit {0}) × S
  pub get_by_id : Text → Text → S → List Ip

-- What the allocator relies on: a view of the reserved addresses, in which `reserve` finds an
-- address free and takes it, or finds it taken and changes nothing. An error leaves the others.
pub record IsLawful {S : Type 0} (store : Store S) (taken : S → Ip → Bool) : Type 0 where
  pub reserve_free :
      (id ifname : Text) (ip : Ip) (range_id : Text) (s : S) {s' : S}
      → store.reserve id ifname ip range_id s ≡ (ok true, s')
      → (taken s ip ≡ false) × (taken s' ip ≡ true)
  pub reserve_taken :
      (id ifname : Text) (ip : Ip) (range_id : Text) (s : S) {s' : S}
      → store.reserve id ifname ip range_id s ≡ (ok false, s')
      → (taken s ip ≡ true) × (s' ≡ s)
  pub reserve_others :
      (id ifname : Text) (ip : Ip) (range_id : Text) (s : S) (other : Ip)
      → equal ip other ≡ false
      → taken (store.reserve id ifname ip range_id s).1 other ≡ taken s other
  pub reserve_error :
      (id ifname : Text) (ip : Ip) (range_id : Text) (s : S) {e : Error} {s' : S}
      → store.reserve id ifname ip range_id s ≡ (err e, s')
      → e ≡ io_failure
