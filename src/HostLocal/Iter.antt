-- ===== src/HostLocal/Iter.antt =====
-- The round-robin iterator of host-local/backend/allocator/allocator.go.
pub mod Spots
pub mod Walk
pub mod Pool
pub mod Cycle
pub mod Round
pub mod Resume
pub mod Order
use plugins.Prelude.{
  ℕ, zero, suc, ◌+◌, ◌-◌, ◌%◌, List, [], ◌∷◌, Bool, true, false, Option, none, some, length,
  get_elem?, if◌then◌else◌, Result, ok, err, ◌>>=◌, Text,
}
use plugins.Net.{Ip, IpNet, slice, equal}
use plugins.Cidr.{next_ip, ip_to_int}
use plugins.HostLocal.Types.{Error, Range, RangeSet, index_panic, out_of_fuel}
use plugins.HostLocal.Range
use plugins.HostLocal.RangeSet
use plugins.HostLocal.Store.{Store}

-- `RangeIter`; its range set is an argument of the operations.
pub record RangeIter : Type 0 where
  pub range_idx : ℕ
  pub cur : Option Ip
  pub start_ip : Option Ip

-- What `Next` returns beside a nil: the address with its mask, and the gateway.
pub record Offer : Type 0 where
  pub address : IpNet
  pub gateway : Option Ip

-- an address with its range's mask and gateway
abbrev pub offer_at : Range → Ip → Offer
offer_at r a = record { address = record { ip = a; mask = r.subnet.mask }; gateway = r.gateway }

-- One run of the body of `Next`: it gives up, skips a gateway by calling itself, or returns.
pub data Visit : Type 0 where
  exhausted : RangeIter → Visit
  skipped : RangeIter → Visit
  offered : Offer → RangeIter → Visit

-- the tail of `Next`, in the range of the cursor
unfoldable pub visit : Range → RangeIter → Visit
visit r i =
    if equal (slice i.cur) (slice r.gateway)
    then skipped i
    else offered (offer_at r (slice i.cur)) i

-- after the cursor has moved: the test against the address where the iteration started
unfoldable pub arrive : Range → RangeIter → Visit
arrive r i = elim i.start_ip [
  | none ↦ visit r (record i { start_ip = i.cur })
  | some start ↦ if equal (slice i.cur) start then exhausted i else visit r i
]

unfoldable pub step : RangeSet → RangeIter → Result Error Visit
step rs i = elim (get_elem? rs i.range_idx) [
  | none ↦ err index_panic
  | some r ↦ elim i.cur [
    | none ↦ ok (visit r (record i { cur = r.range_start; start_ip = r.range_start }))
    | some c ↦
        if equal c (slice r.range_end)
        then (let idx = (i.range_idx + 1) % length rs in
            elim (get_elem? rs idx) [
              | none ↦ err index_panic
              | some r' ↦ ok (arrive r' (record i { range_idx = idx; cur = r'.range_start }))
            ])
        else ok (arrive r (record i { cur = some (next_ip c) }))
  ]
]

-- `Next`, with fuel for its calls of itself
unfoldable pub next : ℕ → RangeSet → RangeIter → Result Error (Option Offer × RangeIter)
next zero rs i = err out_of_fuel
next (suc fuel) rs i = elim (step rs i) [
  | err e ↦ err e
  | ok (exhausted j) ↦ ok (none, j)
  | ok (skipped j) ↦ next fuel rs j
  | ok (offered o j) ↦ ok (some o, j)
]

-- The index of the first range that contains an address, from an index on.
unfoldable pub find_index : ℕ → RangeSet → Ip → Option ℕ
find_index i [] a = none
find_index i (r ∷ rs) a = if Range.contains r a then some i else find_index (i + 1) rs a

-- The part of `GetIter` after the store has been asked for the last reserved address.
unfoldable pub iter_from : RangeSet → Option Ip → Result Error RangeIter
iter_from rs last =
    let fresh = elim rs as (λ _. Result Error RangeIter) [
      | [] ↦ err index_panic
      | r ∷ _ ↦ ok (record { range_idx = 0; cur = none; start_ip = r.range_start })
    ] in
    elim last [
      | none ↦ fresh
      | some a ↦
          if RangeSet.contains rs a
          then elim (find_index 0 rs a) [
            | none ↦ ok (record { range_idx = 0; cur = none; start_ip = none })
            | some i ↦ ok (record { range_idx = i; cur = some a; start_ip = none })
          ]
          else fresh
    ]

-- An error of the store is logged, and the iteration starts as with no last address.
abbrev pub last_or_nil : Result Error (Option Ip) → Option Ip
last_or_nil (ok a) = a
last_or_nil (err e) = none

unfoldable pub get_iter : {S : Type 0} → Store S → RangeSet → Text → S → Result Error RangeIter
get_iter store rs range_id s = iter_from rs (last_or_nil (store.last_reserved_ip range_id s))
