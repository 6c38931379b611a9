-- ===== src/HostLocal/RangeSet.antt =====
-- host-local/backend/allocator/range_set.go
pub mod Complete
use plugins.Prelude.{
  ℕ, [], ◌∷◌, Bool, true, false, ◌||◌, Option, none, some, length, any, ◌==◌, if◌then◌else◌, Result,
  ok, err, ◌>>=◌,
}
use plugins.Net.{Ip, slice}
use plugins.HostLocal.Types.{
  Error, Range, RangeSet, empty_range_set, mixed_families, subnets_overlap, not_in_range_set,
}
use plugins.HostLocal.Range

-- The loop of `RangeFor`, at an address in canonical form.
unfoldable pub find_range : RangeSet → Ip → Option Range
find_range [] addr = none
find_range (r ∷ rs) addr = if Range.contains r addr then some r else find_range rs addr

unfoldable pub range_for : RangeSet → Ip → Result Error Range
range_for s addr = do
  a ← Range.canonicalize_ip addr
  elim (find_range s a) [ some r ↦ ok r | none ↦ err not_in_range_set ]

unfoldable pub contains : RangeSet → Ip → Bool
contains s addr = elim (range_for s addr) [ ok _ ↦ true | err _ ↦ false ]

unfoldable pub overlaps : RangeSet → RangeSet → Bool
overlaps s p1 = any (λ r. any (λ r1. Range.overlaps r r1) p1) s

-- The loop of `Canonicalize` over the ranges; `fam` is nil before the first.
unfoldable pub canonicalize_each : Option ℕ → RangeSet → Result Error RangeSet
canonicalize_each fam [] = ok []
canonicalize_each fam (r ∷ rs) = do
  r' ← Range.canonicalize r
  let size = length (slice r'.range_start)
  fam' ← elim fam [ none ↦ ok size | some n ↦ if n == size then ok n else err mixed_families ]
  rs' ← canonicalize_each (some fam') rs
  ok (r' ∷ rs')

-- Whether two ranges of the set, one before the other, overlap.
unfoldable pub self_overlaps : RangeSet → Bool
self_overlaps [] = false
self_overlaps (r1 ∷ rest) = any (λ r2. Range.overlaps r1 r2) rest || self_overlaps rest

unfoldable pub canonicalize : RangeSet → Result Error RangeSet
canonicalize s =
    if length s == 0
    then err empty_range_set
    else do s' ← canonicalize_each none s; if self_overlaps s' then err subnets_overlap else ok s'
