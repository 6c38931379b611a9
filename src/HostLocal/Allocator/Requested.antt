-- ===== src/HostLocal/Allocator/Requested.antt =====
-- What `Get` with a requested address achieves, over any range set and a lawful store.
use plugins.Prelude.{
  ◌≡◌, refl, sym, ◌∙◌, [], ◌∷◌, Bool, true, false, some, Result, ok, err, Text, arith, Result-cases,
  Bool-cases, inl, inr,
}
use mathlib.Core.List.{Mem, mem-cons_self, mem-cons_of_mem}
use plugins.Net.{Ip, equal, slice}
use plugins.HostLocal.Types.{
  Error, Range, RangeSet, requested_is_gateway, requested_not_available, io_failure,
}
use plugins.HostLocal.Range
use plugins.HostLocal.Range.Canonical.{canonicalize_ip-IsCanonical, canonicalize_ip_canonical}
use plugins.HostLocal.RangeSet
use plugins.HostLocal.Store.{IsLawful}
use plugins.HostLocal.Iter.{Offer, offer_at}
use plugins.HostLocal.Allocator.{IpAllocator, granted, get_requested}

-- The address, in canonical form, is in a range of the set.
pub record IsFound (rs : RangeSet) (ip : Ip) (r : Range) (c : Ip) : Type 0 where
  pub form : Range.canonicalize_ip ip ≡ ok c
  pub mem : Mem r rs
  pub inside : Range.contains r c ≡ true

pub data RequestOutcome {S : Type 0} (taken : S → Ip → Bool) (rs : RangeSet) (ip : Ip) (s : S)
    : Result Error Offer × S → Type 0 where
  -- The address was free and has been taken with its range's mask and gateway; no other changed.
  allocated :
      (r : Range) (c : Ip) (s' : S)
      → IsFound rs ip r c
      → equal c (slice r.gateway) ≡ false
      → taken s c ≡ false
      → taken s' c ≡ true
      → ((other : Ip) → equal c other ≡ false → taken s' other ≡ taken s other)
      → RequestOutcome taken rs ip s (ok (offer_at r c), s')
  -- No range of the set has the address.
  outside : (e : Error) → RangeSet.contains rs ip ≡ false → RequestOutcome taken rs ip s (err e, s)
  gateway :
      (r : Range) (c : Ip)
      → IsFound rs ip r c
      → equal c (slice r.gateway) ≡ true
      → RequestOutcome taken rs ip s (err requested_is_gateway, s)
  reserved :
      (r : Range) (c : Ip)
      → IsFound rs ip r c
      → taken s c ≡ true
      → RequestOutcome taken rs ip s (err requested_not_available, s)
  failed : (s' : S) → RequestOutcome taken rs ip s (err io_failure, s')

find_range-Mem :
    (rs : RangeSet) (c : Ip) (r : Range)
    → RangeSet.find_range rs c ≡ some r
    → Mem r rs × (Range.contains r c ≡ true)
unfolding RangeSet.find_range
find_range-Mem [] c r h = cc
find_range-Mem (q ∷ rs) c r h = elim (Bool-cases (Range.contains q c)) [
  | inl e ↦ let same : q ≡ r = ground arith in rw (← same) (mem-cons_self, e)
  | inr e ↦
      let (i, k) = find_range-Mem rs c r (rw (RangeSet.find_range, e) at h) in
      (mem-cons_of_mem q i, k)
]

module _ (rs : RangeSet) (ip c : Ip) (form : Range.canonicalize_ip ip ≡ ok c) where
  -- The address is put in canonical form again, which changes nothing.
  range_for_form : RangeSet.range_for rs c ≡ RangeSet.range_for rs ip
  unfolding RangeSet.range_for
  range_for_form =
      rw (form, canonicalize_ip_canonical c (canonicalize_ip-IsCanonical ip c form)) refl

  range_for-IsFound : (r : Range) → RangeSet.range_for rs c ≡ ok r → IsFound rs ip r c
  unfolding RangeSet.range_for
  range_for-IsFound r h =
      let canonical = canonicalize_ip_canonical c (canonicalize_ip-IsCanonical ip c form) in
      let found : RangeSet.find_range rs c ≡ some r = ground (arith, canonical) in
      let (mem, inside) = find_range-Mem rs c r found in
      record { form = form; mem = mem; inside = inside }

not_contains-bad :
    (rs : RangeSet) (ip : Ip) (e : Error)
    → Range.canonicalize_ip ip ≡ err e
    → RangeSet.contains rs ip ≡ false
unfolding RangeSet.contains RangeSet.range_for
not_contains-bad rs ip e h = rw (RangeSet.contains, RangeSet.range_for, h) refl

not_contains-no_range :
    (rs : RangeSet) (ip : Ip) (e : Error)
    → RangeSet.range_for rs ip ≡ err e
    → RangeSet.contains rs ip ≡ false
unfolding RangeSet.contains
not_contains-no_range rs ip e h = rw (RangeSet.contains, h) refl

module _ {S : Type 0} (a : IpAllocator S) (taken : S → Ip → Bool) (lawful : IsLawful a.store taken)
    (id ifname : Text) (ip : Ip) (s : S) where
  granted-RequestOutcome :
      (r : Range) (c : Ip) (res : Result Error Bool × S)
      → IsFound a.rangeset ip r c
      → equal c (slice r.gateway) ≡ false
      → a.store.reserve id ifname c a.range_id s ≡ res
      → RequestOutcome taken a.rangeset ip s (granted (offer_at r c) res)
  granted-RequestOutcome r c (err e, s') f g h =
      let io = lawful.reserve_error id ifname c a.range_id s h in rw io (failed s')
  granted-RequestOutcome r c (ok false, s') f g h =
      let (was_taken, same) = lawful.reserve_taken id ifname c a.range_id s h in
      rw same (reserved r c f was_taken)
  granted-RequestOutcome r c (ok true, s') f g h =
      let (was_free, now_taken) = lawful.reserve_free id ifname c a.range_id s h in
      allocated r c s' f g was_free now_taken
        (λ other ne. let k = lawful.reserve_others id ifname c a.range_id s other ne in rw h at k)

  -- Over a lawful store, `Get` with a requested address, whatever the range set, reserves the
  -- address in its canonical form if a range has it, it is not that range's gateway and it is free,
  -- and changes no other; it refuses with the store unchanged if no range has it, if it is the
  -- gateway or if it is taken; or the store fails.
  pub get_requested-RequestOutcome :
      RequestOutcome taken a.rangeset ip s (get_requested a id ifname ip s)
  unfolding get_requested
  get_requested-RequestOutcome = elim (Result-cases (Range.canonicalize_ip ip)) [
    | inr (e, k) ↦ rw (get_requested, k) (outside e (not_contains-bad a.rangeset ip e k))
    | inl (c, k) ↦ elim (Result-cases (RangeSet.range_for a.rangeset c)) [
      | inr (e, l) ↦
          rw (get_requested, k, l)
            (outside e
              (not_contains-no_range a.rangeset ip e (sym (range_for_form a.rangeset ip c k) ∙ l)))
      | inl (r, l) ↦
          let f = range_for-IsFound a.rangeset ip c k r l in
          elim (Bool-cases (equal c (slice r.gateway))) [
            | inl g ↦ rw (get_requested, k, l, g) (gateway r c f g)
            | inr g ↦ rw (get_requested, k, l, g) (granted-RequestOutcome r c _ f g refl)
          ]
    ]
  ]
