-- ===== src/HostLocal/Commands.antt =====
-- host-local/main.go: the commands, over the configuration that has been loaded.
--
-- Go iterates over a map in no fixed order: `shuffle` is the order of the `n`th iteration. The
-- result's printing is not modelled.
pub mod Failure
pub mod OnDisk
use plugins.Prelude.{
  ℕ, zero, suc, ◌+◌, List, [], ◌∷◌, ◌++◌, Bool, true, false, ◌||◌, Option, none, some, Result, ok,
  err, Text, text_eq, itoa, length, ◌==◌, if◌then◌else◌,
}
use plugins.Net.{Ip}
use plugins.HostLocal.Types.{
  Error, RangeSet, failed_to_allocate, requested_unfulfilled, release_failed,
  not_found_for_container,
}
use plugins.HostLocal.RangeSet
use plugins.HostLocal.Store.{Store}
use plugins.HostLocal.Iter.{Offer}
use plugins.HostLocal.Allocator.{IpAllocator, get, release}
use plugins.HostLocal.Disk.{Op, Format, Dir, disk_store, find_by_id}

-- `requestedIPs`, by the text form of the addresses
abbrev pub Requests : Type 0
Requests = List (Text × Ip)

unfoldable pub add_request : Text → Ip → Requests → Requests
add_request k ip [] = (k, ip) ∷ []
add_request k ip ((j, a) ∷ m) = if text_eq j k then (k, ip) ∷ m else (j, a) ∷ add_request k ip m

unfoldable pub requests : (Ip → Text) → Requests → List Ip → Requests
requests ip_string m [] = m
requests ip_string m (ip ∷ ips) = requests ip_string (add_request (ip_string ip) ip m) ips

unfoldable pub delete_request : Text → Requests → Requests
delete_request k [] = []
delete_request k ((j, a) ∷ m) =
    let rest = delete_request k m in if text_eq j k then rest else (j, a) ∷ rest

-- The first requested address, in the order of the iteration, that a range set contains.
unfoldable pub find_request : RangeSet → Requests → Option (Text × Ip)
find_request rs [] = none
find_request rs ((k, ip) ∷ m) = if RangeSet.contains rs ip then some (k, ip) else find_request rs m

module _ {S : Type 0} (store : Store S) (id ifname : Text) (shuffle : ℕ → Requests → Requests) where
  abbrev pub allocator : ℕ → RangeSet → IpAllocator S
  allocator idx rs = record { rangeset = rs; store = store; range_id = itoa idx }

  -- `Release` of each of the allocators used so far; its errors are ignored.
  unfoldable pub release_all : ℕ → S → S
  release_all zero s = s
  release_all (suc n) s = release_all n (store.release_by_id id ifname s).1

  abbrev pub requested_ip : Option (Text × Ip) → Option Ip
  requested_ip none = none
  requested_ip (some (k, ip)) = some ip

  abbrev pub without_request : Option (Text × Ip) → Requests → Requests
  without_request none m = m
  without_request (some (k, ip)) m = delete_request k m

  abbrev pub Added : Type 0
  Added = Result Error (List Offer × Requests) × S

  abbrev pub prepend : Offer → Added → Added
  prepend o (err e, s) = (err e, s)
  prepend o (ok (os, left), s) = (ok (o ∷ os, left), s)

  -- After `Get`: an error releases what the allocators before have reserved.
  abbrev pub after_get : ℕ → (S → Added) → Result Error Offer × S → Added
  after_get idx go (err _, s) = (err failed_to_allocate, release_all idx s)
  after_get idx go (ok o, s) = prepend o (go s)

  -- The loop of `cmdAdd` over the range sets from an index on, which has used as many allocators.
  unfoldable pub add_sets : ℕ → List RangeSet → Requests → S → Added
  add_sets idx [] reqs s = (ok ([], reqs), s)
  add_sets idx (rs ∷ rest) reqs s =
      let picked = find_request rs (shuffle idx reqs) in
      after_get idx (add_sets (idx + 1) rest (without_request picked reqs))
        (get (allocator idx rs) id ifname (requested_ip picked) s)

  -- After the loop: requests that are left are an error.
  abbrev pub finish : ℕ → Added → Result Error (List Offer) × S
  finish allocs (err e, s) = (err e, s)
  finish allocs (ok (ips, left), s) =
      if length left == 0 then (ok ips, s) else (err requested_unfulfilled, release_all allocs s)

  -- `cmdAdd` after the store has been opened
  unfoldable pub cmd_add : (Ip → Text) → List RangeSet → List Ip → S → Result Error (List Offer) × S
  cmd_add ip_string ranges ip_args s =
      finish (length ranges) (add_sets 0 ranges (requests ip_string [] ip_args) s)

  -- The loop of `cmdDel`: every set is released, and an error of any is reported at the end.
  unfoldable pub del_sets : List RangeSet → S → Bool × S
  del_sets [] s = (false, s)
  del_sets (rs ∷ rest) s =
      let (res, s1) = store.release_by_id id ifname s in
      let (failed, s2) = del_sets rest s1 in elim res [ ok _ ↦ (failed, s2) | err _ ↦ (true, s2) ]

  unfoldable pub cmd_del : List RangeSet → S → Result Error (Unit {0}) × S
  cmd_del ranges s =
      let (failed, s') = del_sets ranges s in
      if failed then (err release_failed, s') else (ok tt, s')

-- `cmdCheck`, on the disk's store
unfoldable pub cmd_check : Format → (Op → Text → Bool) → Text → Text → Dir → Result Error (Unit {0})
cmd_check fmt fails id ifname dir =
    if find_by_id fmt fails id ifname dir then ok tt else err not_found_for_container
