-- ===== src/HostLocal/RangeSet/Complete.antt =====
-- What `RangeSet.Canonicalize` leaves: complete ranges of one family that do not overlap.
use plugins.Prelude.{
  ℕ, suc, ◌<◌, ◌≡◌, refl, ap, [], ◌∷◌, false, none, some, length, arith, Result, ok, err, >>=-eq-ok,
  if◌then◌else◌, ◌==◌, All,
}
use plugins.Net.{slice}
use plugins.HostLocal.Types.{Error, Range, RangeSet, mixed_families}
use plugins.HostLocal.Range
use plugins.HostLocal.Range.Complete.{IsComplete, canonicalize-IsComplete}
use plugins.HostLocal.RangeSet.{canonicalize_each, self_overlaps, canonicalize}

-- A complete range whose first address has a length.
abbrev pub IsOfSize : ℕ → Range → Type 0
IsOfSize n r = IsComplete r × (length (slice r.range_start) ≡ n)

pub record IsCompleteSet (s : RangeSet) : Type 0 where
  pub some_range : 0 < length s
  pub size : ℕ
  pub ranges : All (IsOfSize size) s
  pub disjoint : self_overlaps s ≡ false

IsOfSize-cons :
    (n n' : ℕ) (r' : Range) (rs rs' s' : RangeSet)
    → IsComplete r'
    → (if n == length (slice r'.range_start) then ok n else err mixed_families) ≡ ok n'
    → All (IsOfSize n') rs' × (length rs' ≡ length rs)
    → (let res : Result Error RangeSet = ok (r' ∷ rs') in res ≡ ok s')
    → All (IsOfSize n) s' × (length s' ≡ suc (length rs))
IsOfSize-cons n n' r' rs rs' s' c e ih h =
    let (same, size) : (n' ≡ n) × (length (slice r'.range_start) ≡ n) = ground arith in
    let e' : s' ≡ r' ∷ rs' = cc in
    let (all, l) = rw same at ih in rw e' (((c, size), all), ap suc l)

-- After the first range each has its length.
canonicalize_each-IsOfSize :
    (n : ℕ) (s s' : RangeSet)
    → canonicalize_each (some n) s ≡ ok s'
    → All (IsOfSize n) s' × (length s' ≡ length s)
unfolding canonicalize_each
canonicalize_each-IsOfSize n [] s' h = let e : s' ≡ [] = cc in rw e (tt, refl)
canonicalize_each-IsOfSize n (r ∷ rs) s' h =
    let (r', h1, e1) = >>=-eq-ok _ (Range.canonicalize r) h in
    let (n', h2, e2) =
      >>=-eq-ok _ (if n == length (slice r'.range_start) then ok n else err mixed_families) h1 in
    let (rs', h3, e3) = >>=-eq-ok _ (canonicalize_each (some n') rs) h2 in
    IsOfSize-cons n n' r' rs rs' s' (canonicalize-IsComplete r r' e1).0 e2
      (canonicalize_each-IsOfSize n' rs rs' e3) h3

canonicalize_each-first :
    (r : Range) (rs s' : RangeSet)
    → canonicalize_each none (r ∷ rs) ≡ ok s'
    → (n : ℕ) × All (IsOfSize n) s' × (length s' ≡ suc (length rs))
unfolding canonicalize_each
canonicalize_each-first r rs s' h =
    let (r', h1, e1) = >>=-eq-ok _ (Range.canonicalize r) h in
    let size = length (slice r'.range_start) in
    let (rs', h3, e3) = >>=-eq-ok _ (canonicalize_each (some size) rs) h1 in
    let (all, l) =
      IsOfSize-cons size size r' rs rs' s' (canonicalize-IsComplete r r' e1).0 (ground arith)
        (canonicalize_each-IsOfSize size rs rs' e3) h3 in
    (size, all, l)

-- A set that `Canonicalize` accepts is left with as many ranges, at least one, that are complete,
-- of one family and do not overlap.
pub canonicalize-IsCompleteSet :
    (s s' : RangeSet) → canonicalize s ≡ ok s' → IsCompleteSet s' × (length s' ≡ length s)
unfolding canonicalize
canonicalize-IsCompleteSet [] s' h = cc
canonicalize-IsCompleteSet (r ∷ rs) s' h =
    let some_range : (length (r ∷ rs) == 0) ≡ false = ground arith in
    let (each, h1, e1) = >>=-eq-ok _ (canonicalize_each none (r ∷ rs)) (rw some_range at h) in
    let (same, apart) : (each ≡ s') × (self_overlaps each ≡ false) = ground arith in
    let (size, ranges, l) = canonicalize_each-first r rs s' (rw same at e1) in
    (
      record {
        some_range = omega (arith, l);
        size = size;
        ranges = ranges;
        disjoint = rw same at apart;
      },
      l,
    )
