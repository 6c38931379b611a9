-- ===== src/HostLocal/Iter/Cycle.antt =====
-- The cycle of a whole pool: linked from its first spot back to it, with no address twice.
use plugins.Prelude.{
  ℕ, zero, suc, ◌+◌, ◌-◌, ◌<◌, ◌≡◌, ◌⊎◌, refl, ap, ◌∙◌, List, [], ◌∷◌, ◌++◌, some, length, All,
  arith, length-append, All-append, All-append_left, All-append_right, All-map,
}
use plugins.Net.{Ip, slice}
use plugins.Cidr.{next_ip, ip_to_int}
use plugins.Cidr.Next.{IsPlain}
use plugins.HostLocal.Types.{Range, RangeSet}
use plugins.HostLocal.Iter.Spots.{Spot, spot_start}
use plugins.HostLocal.Iter.Pool.{
  IsSound, AreApart, AllApart, low, high, spot_at, spots_of, later_spots, spots_at, not_equal,
  IsBetween, Differs, AllDiffer, spots_of-IsBetween, spots_of-AllDiffer,
}
use plugins.HostLocal.Allocator.{pool_size}

abbrev pub first_spot : ℕ → Range → Spot
first_spot i r = spot_at i r (slice r.range_start)

module _ (i : ℕ) (r : Range) (s : IsSound r) where
  pub IsPlain-low : IsPlain (slice r.range_start)
  IsPlain-low = rw s.has_start s.plain_start

  pub width : ip_to_int (slice r.range_start) + (high r - low r) ≡ ip_to_int s.end
  width = rw (s.has_start, s.has_end) (omega (arith, s.in_order))

  pub length_low : length (slice r.range_start) ≡ length s.end
  length_low = rw s.has_start s.one_length

  pub range_spots-IsBetween : All (IsBetween (low r) (high r)) (first_spot i r ∷ later_spots i r)
  range_spots-IsBetween = (
    (IsPlain-low, omega arith, omega (arith, width, e)),
    All-map _ _
        (λ q (h : IsBetween (ip_to_int (slice r.range_start) + 1) (ip_to_int s.end) q).
          (h.0, omega (arith, h.1), omega (arith, h.2, e)))
        (later_spots i r)
        (spots_of-IsBetween i r s.end s.plain_end _ _ IsPlain-low length_low width),
  )
    where
      e : high r ≡ ip_to_int s.end
      e = rw s.has_end refl

  range_spots-AllDiffer : AllDiffer (first_spot i r ∷ later_spots i r)
  range_spots-AllDiffer = spots_of-AllDiffer i r s.end s.plain_end _ _ IsPlain-low length_low width

  pub spot_start-first_spot : spot_start i (some r) ≡ some (first_spot i r)
  spot_start-first_spot = ground (arith, s.has_start)

  length-spots_of : (n : ℕ) (a : Ip) → length (spots_of i r n a) ≡ n
  unfolding spots_of
  length-spots_of zero a = refl
  length-spots_of (suc n) a = ap suc (length-spots_of n (next_ip a))

  length_range : length (first_spot i r ∷ later_spots i r) ≡ high r + 1 - low r
  length_range = omega (
    arith,
    length-spots_of (high r - low r) (next_ip (slice r.range_start)),
    width,
    ap ip_to_int (ap slice s.has_end),
  )

-- Differing addresses across two lists, and in a list made of two.
abbrev pub Cross : List Spot → List Spot → Type 0
Cross ps qs = All (λ p. All (Differs p) qs) ps

pub AllDiffer-append :
    (ps qs : List Spot) → AllDiffer ps → AllDiffer qs → Cross ps qs → AllDiffer (ps ++ qs)
AllDiffer-append [] qs h k c = k
AllDiffer-append (p ∷ ps) qs h k c =
    (All-append (Differs p) ps qs h.0 c.0, AllDiffer-append ps qs h.1 k c.1)

between_apart :
    (lo hi lo' hi' : ℕ) (p q : Spot)
    → (hi < lo') ⊎ (hi' < lo)
    → IsBetween lo hi p
    → IsBetween lo' hi' q
    → Differs p q
between_apart lo hi lo' hi' p q h b c = (
  not_equal b.0 c.0 (omega (arith, b.1, b.2, c.1, c.2)),
  not_equal c.0 b.0 (omega (arith, b.1, b.2, c.1, c.2)),
)

Cross-apart :
    (lo hi lo' hi' : ℕ) (ps qs : List Spot)
    → (hi < lo') ⊎ (hi' < lo)
    → All (IsBetween lo hi) ps
    → All (IsBetween lo' hi') qs
    → Cross ps qs
Cross-apart lo hi lo' hi' ps qs h b c =
    All-map (IsBetween lo hi) _
      (λ p hp. All-map (IsBetween lo' hi') _ (λ q hq. between_apart lo hi lo' hi' p q h hp hq) qs c)
      ps b

Cross-append_right : (ps qs qs' : List Spot) → Cross ps qs → Cross ps qs' → Cross ps (qs ++ qs')
Cross-append_right [] qs qs' h k = tt
Cross-append_right (p ∷ ps) qs qs' h k =
    (All-append (Differs p) qs qs' h.0 k.0, Cross-append_right ps qs qs' h.1 k.1)

Cross-nil : (ps : List Spot) → Cross ps []
Cross-nil [] = tt
Cross-nil (p ∷ ps) = (tt, Cross-nil ps)

-- A stretch within the bounds of a range differs from the spots of ranges apart from it.
Cross-spots_at :
    (r : Range) (ps : List Spot) (j : ℕ) (rs : RangeSet)
    → All (IsBetween (low r) (high r)) ps
    → All IsSound rs
    → All (AreApart r) rs
    → Cross ps (spots_at j rs)
unfolding spots_at
Cross-spots_at r ps j [] b s h = Cross-nil ps
Cross-spots_at r ps j (q ∷ rs) b s h =
    Cross-append_right ps (first_spot j q ∷ later_spots j q) (spots_at (j + 1) rs)
      (Cross-apart (low r) (high r) (low q) (high q) ps (first_spot j q ∷ later_spots j q) h.0 b
        (range_spots-IsBetween j q s.0))
      (Cross-spots_at r ps (j + 1) rs b s.1 h.1)

-- No two spots of the cycle have one address, where the ranges are sound and apart.
pub spots_at-AllDiffer :
    (i : ℕ) (rs : RangeSet) → All IsSound rs → AllApart rs → AllDiffer (spots_at i rs)
unfolding spots_at
spots_at-AllDiffer i [] s h = tt
spots_at-AllDiffer i (r ∷ rs) s h =
    AllDiffer-append (first_spot i r ∷ later_spots i r) (spots_at (i + 1) rs)
      (range_spots-AllDiffer i r s.0) (spots_at-AllDiffer (i + 1) rs s.1 h.1)
      (Cross-spots_at r (first_spot i r ∷ later_spots i r) (i + 1) rs
        (range_spots-IsBetween i r s.0) s.1 h.0)

pub length-spots_at :
    (i : ℕ) (rs : RangeSet) → All IsSound rs → length (spots_at i rs) ≡ pool_size rs
unfolding spots_at pool_size
length-spots_at i [] s = refl
length-spots_at i (r ∷ rs) s =
    length-append (first_spot i r ∷ later_spots i r) (spots_at (i + 1) rs)
    ∙ omega (arith, length_range i r s.0, length-spots_at (i + 1) rs s.1)

Cross-append : (ps ps' qs : List Spot) → Cross (ps ++ ps') qs → Cross ps qs × Cross ps' qs
Cross-append [] ps' qs h = (tt, h)
Cross-append (p ∷ ps) ps' qs h = let t = Cross-append ps ps' qs h.1 in ((h.0, t.0), t.1)

Cross-cons :
    (ps qs : List Spot) (q : Spot) → All (λ p. Differs q p) ps → Cross ps qs → Cross ps (q ∷ qs)
Cross-cons [] qs q h k = tt
Cross-cons (p ∷ ps) qs q h k = (((h.0.1, h.0.0), k.0), Cross-cons ps qs q h.1 k.1)

Cross-symm : (ps qs : List Spot) → Cross ps qs → Cross qs ps
Cross-symm [] qs h = Cross-nil qs
Cross-symm (p ∷ ps) qs h = Cross-cons qs ps p h.0 (Cross-symm ps qs h.1)

AllDiffer-split :
    (ps qs : List Spot) → AllDiffer (ps ++ qs) → AllDiffer ps × AllDiffer qs × Cross ps qs
AllDiffer-split [] qs h = (tt, h, tt)
AllDiffer-split (p ∷ ps) qs h =
    let t = AllDiffer-split ps qs h.1 in
    (
      (All-append_left (Differs p) ps qs h.0, t.0),
      t.1,
      (All-append_right (Differs p) ps qs h.0, t.2),
    )

pub AllDiffer-rotate : (ps qs : List Spot) → AllDiffer (ps ++ qs) → AllDiffer (qs ++ ps)
AllDiffer-rotate ps qs h =
    let t = AllDiffer-split ps qs h in AllDiffer-append qs ps t.1 t.0 (Cross-symm ps qs t.2)
