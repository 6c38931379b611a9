-- ===== src/HostLocal/Allocator/Outcomes.antt =====
-- What `Get` with no requested address achieves over a pool and a lawful store.
use plugins.Prelude.{
  ◌≡◌, ◌⊎◌, inl, inr, refl, List, [], ◌∷◌, ◌++◌, Bool, true, false, Option, some, Result, ok, err,
  Text, All, Bool-cases, All-append, All-append_left, All-append_right,
}
use mathlib.Core.List.{Mem, Perm, append_assoc, perm_append_comm, mem-cons_self, mem-cons_of_mem}
use mathlib.Core.List.Perm
use plugins.Net.{Ip, equal}
use plugins.Net.Facts.{IsBytes}
use plugins.HostLocal.Types.{Error, RangeSet, no_addresses, io_failure}
use plugins.HostLocal.Store.{Store, IsLawful}
use plugins.HostLocal.Iter.{Offer, offer_at}
use plugins.HostLocal.Iter.Spots.{Spot}
use plugins.HostLocal.Iter.Walk.{
  is_gateway, reserve_first, reserve_first-gateway, reserve_first-attempt,
}
use plugins.HostLocal.Iter.Pool.{IsPool, spots_at}
use plugins.HostLocal.Iter.Order.{IsOrder, from_first, from_last}
use plugins.HostLocal.Allocator.{IpAllocator, settle, get_any}
use plugins.HostLocal.Allocator.RoundRobin.{has_address, last_reserved, get_any-reserve_first}

-- An address may not be handed out: it is a gateway or it is taken.
abbrev pub IsUnusable : {S : Type 0} → (S → Ip → Bool) → S → Spot → Type 0
IsUnusable taken s p = (is_gateway p ≡ true) ⊎ (taken s p.ip ≡ true)

pub data Outcome {S : Type 0} (taken : S → Ip → Bool) (cycle : List Spot) (s : S)
    : Result Error Offer × S → Type 0 where
  -- A free address that is no gateway has been taken, and no other has changed.
  allocated :
      (p : Spot) (s' : S)
      → Mem p cycle
      → is_gateway p ≡ false
      → taken s p.ip ≡ false
      → taken s' p.ip ≡ true
      → ((other : Ip) → equal p.ip other ≡ false → taken s' other ≡ taken s other)
      → Outcome taken cycle s (ok (offer_at p.range p.ip), s')
  -- No address was free, and nothing has changed.
  full : All (IsUnusable taken s) cycle → Outcome taken cycle s (err no_addresses, s)
  -- The store failed.
  failed : (s' : S) → Outcome taken cycle s (err io_failure, s')

module _ {S : Type 0} (store : Store S) (taken : S → Ip → Bool) (lawful : IsLawful store taken)
    (id ifname range_id : Text) where
  Outcome-cons :
      (q : Spot) (qs : List Spot) (s : S) (res : Result Error Offer × S)
      → IsUnusable taken s q
      → Outcome taken qs s res
      → Outcome taken (q ∷ qs) s res
  Outcome-cons q qs s _ u (allocated p s' i g f t o) = allocated p s' (mem-cons_of_mem q i) g f t o
  Outcome-cons q qs s _ u (full all) = full (u, all)
  Outcome-cons q qs s _ u (failed s') = failed s'

  settle-Outcome :
      (q : Spot) (qs : List Spot) (s : S) (res : Result Error Bool × S)
      → store.reserve id ifname q.ip range_id s ≡ res
      → is_gateway q ≡ false
      → Outcome taken qs s (reserve_first store id ifname range_id qs s)
      → Outcome taken
          (q ∷ qs)
          s
          (settle (offer_at q.range q.ip) (reserve_first store id ifname range_id qs) res)
  settle-Outcome q qs s (err e, s') r g ih =
      let io = lawful.reserve_error id ifname q.ip range_id s r in rw io (failed s')
  settle-Outcome q qs s (ok true, s') r g ih =
      let (was_free, now_taken) = lawful.reserve_free id ifname q.ip range_id s r in
      allocated q s' mem-cons_self g was_free now_taken
        (λ other ne. let k = lawful.reserve_others id ifname q.ip range_id s other ne in rw r at k)
  settle-Outcome q qs s (ok false, s') r g ih =
      let (was_taken, same) = lawful.reserve_taken id ifname q.ip range_id s r in
      rw same (Outcome-cons q qs s _ (inr was_taken) ih)

  pub reserve_first-Outcome :
      (qs : List Spot) (s : S) → Outcome taken qs s (reserve_first store id ifname range_id qs s)
  reserve_first-Outcome [] s = unfold reserve_first in full tt
  reserve_first-Outcome (q ∷ qs) s = go (reserve_first-Outcome qs s)
    where
      go :
          Outcome taken qs s (reserve_first store id ifname range_id qs s)
          → Outcome taken (q ∷ qs) s (reserve_first store id ifname range_id (q ∷ qs) s)
      go ih = elim (Bool-cases (is_gateway q)) [
        | inl g ↦
            rw (reserve_first-gateway store id ifname range_id q qs s g)
              (Outcome-cons q qs s _ (inl g) ih)
        | inr g ↦
            rw (reserve_first-attempt store id ifname range_id q qs s g)
              (settle-Outcome q qs s _ refl g ih)
      ]

-- Each order is a permutation of the cycle.
pub IsOrder-perm :
    (rs : RangeSet) (last : Option Ip) (order : List Spot)
    → IsOrder rs last order
    → Perm order (spots_at 0 rs)
IsOrder-perm rs last _ (from_first _) = Perm.refl (spots_at 0 rs)
IsOrder-perm rs last _ (from_last a p before after _ _ e) =
    rw (e, append_assoc after before (p ∷ []), ← append_assoc before (p ∷ []) after)
      (perm_append_comm after (before ++ p ∷ []))

IsOrder-All :
    (P : Spot → Type 0) (rs : RangeSet) (last : Option Ip) (order : List Spot)
    → IsOrder rs last order
    → All P order
    → All P (spots_at 0 rs)
IsOrder-All P rs last _ (from_first _) h = h
IsOrder-All P rs last _ (from_last a p before after _ _ e) h =
    let front = All-append_left P (after ++ before) (p ∷ []) h in
    let here = All-append_right P (after ++ before) (p ∷ []) h in
    rw e (
      All-append P before (p ∷ after) (All-append_right P after before front)
        (here.0, All-append_left P after before front))

Outcome-IsOrder :
    {S : Type 0} (taken : S → Ip → Bool) (rs : RangeSet) (last : Option Ip) (order : List Spot)
    (s : S) (res : Result Error Offer × S)
    → IsOrder rs last order
    → Outcome taken order s res
    → Outcome taken (spots_at 0 rs) s res
Outcome-IsOrder taken rs last order s _ o (allocated p s' i g f t k) =
    allocated p s' ((Perm.mem_iff (IsOrder-perm rs last order o)).0 i) g f t k
Outcome-IsOrder taken rs last order s _ o (full all) =
    full (IsOrder-All (IsUnusable taken s) rs last order o all)
Outcome-IsOrder taken rs last order s _ o (failed s') = failed s'

-- Over a pool and a lawful store, `Get` with no requested address for a container that has none
-- ends in one of three ways: it takes an address of the pool that was free and is no gateway, and
-- changes no other; or every address of the pool is a gateway or taken, and it says so; or the
-- store fails. It never runs out of rounds or indexes out of range.
pub get_any-Outcome :
    {S : Type 0} (a : IpAllocator S) (id ifname : Text) (s : S) (taken : S → Ip → Bool)
    → IsPool a.rangeset
    → IsLawful a.store taken
    → ((last : Ip) → last_reserved a id ifname s ≡ some last → IsBytes last)
    → has_address a id ifname s ≡ false
    → Outcome taken (spots_at 0 a.rangeset) s (get_any a id ifname s)
get_any-Outcome a id ifname s taken pool lawful bytes h =
    let (order, o, e) = get_any-reserve_first a id ifname s pool bytes h in
    rw e (
      Outcome-IsOrder taken a.rangeset (last_reserved a id ifname s) order s _ o
        (reserve_first-Outcome a.store taken lawful id ifname a.range_id order s))
