-- ===== src/HostLocal/Allocator.antt =====
-- `IPAllocator` of host-local/backend/allocator/allocator.go, over the interface of a store.
pub mod RoundRobin
pub mod Outcomes
pub mod Requested
use plugins.Prelude.{
  ℕ, zero, suc, ◌+◌, ◌-◌, List, [], ◌∷◌, Bool, true, false, Option, none, some, any, if◌then◌else◌,
  Result, ok, err, ◌>>=◌, Text,
}
use plugins.Net.{Ip, IpNet, slice, equal}
use plugins.Cidr.{ip_to_int}
use plugins.HostLocal.Types.{
  Error, Range, RangeSet, out_of_fuel, requested_is_gateway, requested_not_available,
  already_allocated, no_addresses,
}
use plugins.HostLocal.Range
use plugins.HostLocal.RangeSet
use plugins.HostLocal.Store.{Store}
use plugins.HostLocal.Iter.{Offer, RangeIter, offer_at, next, get_iter}

-- The numbers of addresses in the ranges, which bound the rounds of the loop.
unfoldable pub pool_size : RangeSet → ℕ
pool_size [] = 0
pool_size (r ∷ rs) =
    ip_to_int (slice r.range_end) + 1 - ip_to_int (slice r.range_start) + pool_size rs

-- The `rangeID` is the text of the range set's index.
pub record IpAllocator (S : Type 0) : Type 0 where
  pub rangeset : RangeSet
  pub store : Store S
  pub range_id : Text

-- The three results of `Reserve` in the loop of `Get`: an error, success, or to go on.
abbrev pub settle :
    {S : Type 0}
    → Offer
    → (S → Result Error Offer × S)
    → Result Error Bool × S
    → Result Error Offer × S
settle o go (err e, s) = (err e, s)
settle o go (ok true, s) = (ok o, s)
settle o go (ok false, s) = go s

-- What `Get` makes of the result of `Reserve` for a requested address.
abbrev pub granted : {S : Type 0} → Offer → Result Error Bool × S → Result Error Offer × S
granted o (err e, s) = (err e, s)
granted o (ok false, s) = (err requested_not_available, s)
granted o (ok true, s) = (ok o, s)

module _ {S : Type 0} (a : IpAllocator S) (id ifname : Text) where
  -- The branch of `Get` for a requested address.
  unfoldable pub get_requested : Ip → S → Result Error Offer × S
  get_requested requested s = elim (Range.canonicalize_ip requested) [
    | err e ↦ (err e, s)
    | ok ip ↦ elim (RangeSet.range_for a.rangeset ip) [
      | err e ↦ (err e, s)
      | ok r ↦
          if equal ip (slice r.gateway)
          then (err requested_is_gateway, s)
          else granted (offer_at r ip) (a.store.reserve id ifname ip a.range_id s)
    ]
  ]

  -- The loop of `Get` over the iterator.
  unfoldable pub try_next : ℕ → ℕ → RangeIter → S → Result Error Offer × S
  try_next fuel zero i s = (err out_of_fuel, s)
  try_next fuel (suc rounds) i s = elim (next fuel a.rangeset i) [
    | err e ↦ (err e, s)
    | ok (none, j) ↦ (err no_addresses, s)
    | ok (some o, j) ↦
        settle o (try_next fuel rounds j) (a.store.reserve id ifname o.address.ip a.range_id s)
  ]

  unfoldable pub get_any : S → Result Error Offer × S
  get_any s =
      if any (RangeSet.contains a.rangeset) (a.store.get_by_id id ifname s)
      then (err already_allocated, s)
      else elim (get_iter a.store a.rangeset a.range_id s) [
        | err e ↦ (err e, s)
        | ok i ↦ try_next (pool_size a.rangeset + 2) (pool_size a.rangeset + 2) i s
      ]

  -- `Get`
  unfoldable pub get : Option Ip → S → Result Error Offer × S
  get none s = get_any s
  get (some requested) s = get_requested requested s

  -- `Release`
  unfoldable pub release : S → Result Error (Unit {0}) × S
  release s = a.store.release_by_id id ifname s
