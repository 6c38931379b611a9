-- ===== src/HostLocal/Allocator/RoundRobin.antt =====
-- `Get` with no requested address is the search of a list: the cycle of the pool, in the order of
-- the iterator.
use plugins.Prelude.{
  ◌+◌, ◌<◌, ◌≡◌, refl, ap, ◌∙◌, List, [], ◌∷◌, ◌++◌, Bool, true, false, Option, some, length, any,
  arith, err, Text, length-append,
}
use plugins.Net.{Ip}
use plugins.Net.Facts.{IsBytes}
use plugins.HostLocal.Types.{RangeSet, already_allocated}
use plugins.HostLocal.RangeSet
use plugins.HostLocal.Iter.{get_iter, last_or_nil}
use plugins.HostLocal.Iter.Spots.{Spot}
use plugins.HostLocal.Iter.Walk.{reserve_first, try_next-reserve_first}
use plugins.HostLocal.Iter.Pool.{IsPool, spots_at}
use plugins.HostLocal.Iter.Cycle.{length-spots_at}
use plugins.HostLocal.Iter.Order.{IsOrder, from_first, from_last, Iteration, iter_from-Iteration}
use plugins.HostLocal.Allocator.{IpAllocator, pool_size, try_next, get_any}

length-IsOrder :
    (rs : RangeSet) (last : Option Ip) (order : List Spot)
    → IsOrder rs last order
    → length order ≡ length (spots_at 0 rs)
length-IsOrder rs last _ (from_first _) = refl
length-IsOrder rs last _ (from_last a p before after _ _ e) = omega (
  arith,
  ap length e,
  length-append before (p ∷ after),
  length-append (after ++ before) (p ∷ []),
  length-append after before,
)

module _ {S : Type 0} (a : IpAllocator S) (id ifname : Text) (s : S) where
  -- whether the container already has an address of the range set
  abbrev pub has_address : Bool
  has_address = any (RangeSet.contains a.rangeset) (a.store.get_by_id id ifname s)

  -- the address that `GetIter` reads from the store
  abbrev pub last_reserved : Option Ip
  last_reserved = last_or_nil (a.store.last_reserved_ip a.range_id s)

  -- A container that has an address of the range set is refused, and the store is unchanged.
  pub get_any-already_allocated :
      has_address ≡ true → get_any a id ifname s ≡ (err already_allocated, s)
  unfolding get_any
  get_any-already_allocated h = rw h refl

  get_any-try_next :
      has_address ≡ false
      → (t : Iteration a.rangeset last_reserved)
      → get_any a id ifname s
        ≡ try_next a id ifname (pool_size a.rangeset + 2) (pool_size a.rangeset + 2) t.iter s
  unfolding get_any get_iter
  get_any-try_next h t = rw h (rw t.made refl)

  -- Over a pool, `Get` with no requested address, for a container with none, tries to reserve the
  -- addresses of the pool that are no gateway, in the order of the cycle from the first address
  -- or from the one after the last reserved; the first that is free is the result.
  pub get_any-reserve_first :
      IsPool a.rangeset
      → ((last : Ip) → last_reserved ≡ some last → IsBytes last)
      → has_address ≡ false
      → (order : List Spot) × IsOrder a.rangeset last_reserved order
        × (get_any a id ifname s ≡ reserve_first a.store id ifname a.range_id order s)
  get_any-reserve_first pool bytes h =
      let t = iter_from-Iteration a.rangeset last_reserved pool bytes in
      let l : length t.order < pool_size a.rangeset + 2 = omega (
        arith,
        length-IsOrder a.rangeset last_reserved t.order t.is_order,
        length-spots_at 0 a.rangeset pool.sound,
      ) in
      (
        t.order,
        t.is_order,
        get_any-try_next h t
            ∙ try_next-reserve_first a id ifname t.start (pool_size a.rangeset + 2)
                (pool_size a.rangeset + 2) t.iter t.order s l l t.walks,
      )
