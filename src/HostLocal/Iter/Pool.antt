-- ===== src/HostLocal/Iter/Pool.antt =====
-- Range sets as `Canonicalize` should leave them, and the cycle of all their addresses: `Next`
-- moves along it, and no address stands in it twice.
use plugins.Prelude.{
  ℕ, zero, suc, ◌+◌, ◌-◌, ◌%◌, ◌≤◌, ◌<◌, ◌≡◌, ◌≢◌, ◌⊎◌, ap, ◌∙◌, List, [], ◌∷◌, ◌++◌, false, some,
  length, get_elem?, All, arith, Bool-cases, inl, inr, All-map,
}
use plugins.Net.{Ip, slice, equal}
use plugins.Net.Facts.{equal_self, equal-eq}
use plugins.Cidr.{next_ip, ip_to_int}
use plugins.Cidr.Next.{
  IsPlain, IsPlain-IsCanonical, ip_to_int_inj, IsSuccessor, next_ip-IsSuccessor,
}
use plugins.HostLocal.Types.{Range, RangeSet}
use plugins.HostLocal.Iter.Spots.{Spot, spot_start, Linked, move-wrap, move-inside}

-- A range with both ends, of one length and in order, in a subnet of that length.
pub record IsSound (r : Range) : Type 0 where
  pub start : Ip
  pub end : Ip
  pub has_start : r.range_start ≡ some start
  pub has_end : r.range_end ≡ some end
  pub plain_start : IsPlain start
  pub plain_end : IsPlain end
  pub one_length : length start ≡ length end
  pub subnet_length : length r.subnet.ip ≡ length start
  pub in_order : ip_to_int start ≤ ip_to_int end

abbrev pub low : Range → ℕ
low r = ip_to_int (slice r.range_start)

abbrev pub high : Range → ℕ
high r = ip_to_int (slice r.range_end)

abbrev pub AreApart : Range → Range → Type 0
AreApart r q = (high r < low q) ⊎ (high q < low r)

abbrev pub AllApart : RangeSet → Type 0
AllApart [] = Unit
AllApart (r ∷ rs) = All (AreApart r) rs × AllApart rs

pub record IsPool (rs : RangeSet) : Type 0 where
  pub some_range : 0 < length rs
  pub sound : All IsSound rs
  pub apart : AllApart rs

abbrev pub spot_at : ℕ → Range → Ip → Spot
spot_at i r a = record { idx = i; range = r; ip = a }

-- `n` addresses of a range from one on
unfoldable pub spots_of : ℕ → Range → ℕ → Ip → List Spot
spots_of i r zero a = []
spots_of i r (suc n) a = spot_at i r a ∷ spots_of i r n (next_ip a)

-- The addresses of a range after its first.
abbrev pub later_spots : ℕ → Range → List Spot
later_spots i r = spots_of i r (high r - low r) (next_ip (slice r.range_start))

-- The whole cycle, from the range of an index on.
unfoldable pub spots_at : ℕ → RangeSet → List Spot
unfolding spots_of
spots_at i [] = []
spots_at i (r ∷ rs) = spot_at i r (slice r.range_start) ∷ (later_spots i r ++ spots_at (i + 1) rs)

pub not_equal : {a b : Ip} → IsPlain a → IsPlain b → ip_to_int a ≢ ip_to_int b → equal a b ≡ false
not_equal {a} {b} p q h = elim (Bool-cases (equal a b)) [
  | inr e ↦ e
  | inl e ↦
      absurd (h (ap ip_to_int (equal-eq a b (IsPlain-IsCanonical p) (IsPlain-IsCanonical q) e)))
]

module _ (rs : RangeSet) (i : ℕ) (r : Range) (here : get_elem? rs i ≡ some r) (ok_r : IsSound r)
    (z : Spot)
    (wraps : spot_start ((i + 1) % length rs) (get_elem? rs ((i + 1) % length rs)) ≡ some z) where
  -- From an address of the range the moves lead to its end and then on.
  pub spots_of-Linked :
      (n : ℕ) (a : Ip)
      → IsPlain a
      → length a ≡ length ok_r.end
      → ip_to_int a + n ≡ ip_to_int ok_r.end
      → Linked rs i a (spots_of i r n (next_ip a)) z
  unfolding spots_of
  spots_of-Linked zero a p l e =
      let same : a ≡ ok_r.end = ip_to_int_inj p ok_r.plain_end (omega arith) in
      move-wrap rs i a r here (rw (ok_r.has_end, same) (equal_self ok_r.end)) ∙ wraps
  spots_of-Linked (suc n) a p l e =
      let ne : equal a (slice r.range_end) ≡ false =
        rw ok_r.has_end (not_equal p ok_r.plain_end (omega arith)) in
      let s : IsSuccessor a (next_ip a) =
        next_ip-IsSuccessor a ok_r.end p ok_r.plain_end l (omega arith) in
      (
        move-inside rs i a r here ne,
        spots_of-Linked n (next_ip a) s.plain (s.same_length ∙ l) (omega (arith, s.value)),
      )

-- What the bounds of a stretch of spots are used for.
abbrev pub IsBetween : ℕ → ℕ → Spot → Type 0
IsBetween lo hi q = IsPlain q.ip × (lo ≤ ip_to_int q.ip) × (ip_to_int q.ip ≤ hi)

abbrev pub Differs : Spot → Spot → Type 0
Differs p q = (equal p.ip q.ip ≡ false) × (equal q.ip p.ip ≡ false)

abbrev pub AllDiffer : List Spot → Type 0
AllDiffer [] = Unit
AllDiffer (p ∷ ps) = All (Differs p) ps × AllDiffer ps

module _ (i : ℕ) (r : Range) (end : Ip) (plain_end : IsPlain end) where
  pub spots_of-IsBetween :
      (n : ℕ) (a : Ip)
      → IsPlain a
      → length a ≡ length end
      → ip_to_int a + n ≡ ip_to_int end
      → All (IsBetween (ip_to_int a + 1) (ip_to_int end)) (spots_of i r n (next_ip a))
  unfolding spots_of
  spots_of-IsBetween zero a p l e = tt
  spots_of-IsBetween (suc n) a p l e =
      let s : IsSuccessor a (next_ip a) = next_ip-IsSuccessor a end p plain_end l (omega arith) in
      (
        (s.plain, omega (arith, s.value), omega (arith, s.value)),
        All-map _ _ (λ q (h : IsBetween _ _ q). (h.0, omega (arith, s.value, h.1), h.2)) _
            (spots_of-IsBetween n (next_ip a) s.plain (s.same_length ∙ l) (omega (arith, s.value))),
      )

  pub spots_of-AllDiffer :
      (n : ℕ) (a : Ip)
      → IsPlain a
      → length a ≡ length end
      → ip_to_int a + n ≡ ip_to_int end
      → All (Differs (spot_at i r a)) (spots_of i r n (next_ip a))
        × AllDiffer (spots_of i r n (next_ip a))
  unfolding spots_of
  spots_of-AllDiffer zero a p l e = (tt, tt)
  spots_of-AllDiffer (suc n) a p l e =
      let s : IsSuccessor a (next_ip a) = next_ip-IsSuccessor a end p plain_end l (omega arith) in
      (
        All-map _ _
            (λ q (h : IsBetween (ip_to_int a + 1) (ip_to_int end) q).
              (not_equal p h.0 (omega (arith, h.1)), not_equal h.0 p (omega (arith, h.1))))
            (spots_of i r (suc n) (next_ip a)) (spots_of-IsBetween (suc n) a p l e),
        spots_of-AllDiffer n (next_ip a) s.plain (s.same_length ∙ l) (omega (arith, s.value)),
      )
