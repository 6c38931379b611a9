-- ===== src/HostLocal/Iter/Resume.antt =====
-- `GetIter` after a last reserved address of the set: the address stands in the cycle, and the
-- iteration goes around from there.
use plugins.Prelude.{
  ℕ, zero, suc, ◌+◌, ◌≤◌, ◌<◌, ◌*◌, ◌≡◌, ◌≢◌, refl, ap, ◌∙◌, List, [], ◌∷◌, ◌++◌, true, some,
  length, arith, Result, ok, err,
}
use mathlib.Core.List.{append_assoc}
use plugins.Net.{Ip, slice}
use plugins.Net.Facts.{IsBytes}
use plugins.Cidr.{set_bytes, next_ip, ip_to_int, cmp, less, greater}
use plugins.Cidr.Bytes.{HasLead}
use plugins.Cidr.Next.{
  IsPlain, IsPlain-IsCanonical, IsSuccessor, next_ip-IsSuccessor, ip_to_int_inj,
  ip_to_int_canonical, set_bytes_mono,
}
use plugins.HostLocal.Types.{Error, Range}
use plugins.HostLocal.Range
use plugins.HostLocal.Range.Canonical.{canonicalize_ip-IsCanonical, canonicalize_ip-IsBytes}
use plugins.HostLocal.Iter.Spots.{Spot}
use plugins.HostLocal.Iter.Pool.{IsSound, low, high, spot_at, spots_of}

set_bytes_lt :
    (n : ℕ) (as' bs : List ℕ)
    → length as' ≡ length bs
    → IsBytes as'
    → set_bytes n as' < set_bytes (n + 1) bs
unfolding set_bytes
set_bytes_lt n [] [] e h = omega arith
set_bytes_lt n [] (b ∷ bs) e h = absurd (omega arith)
set_bytes_lt n (a ∷ as') [] e h = absurd (omega arith)
set_bytes_lt n (a ∷ as') (b ∷ bs) e h = omega (
  arith,
  set_bytes_lt (n * 256 + a) as' bs (omega arith) h.1,
  set_bytes_mono bs (n * 256 + a + 1) ((n + 1) * 256 + b) (omega (arith, h.0)),
)

-- An address that is not below one with a lead has a lead itself.
HasLead-of_le :
    (as' bs : List ℕ)
    → IsBytes as'
    → length as' ≡ length bs
    → HasLead bs
    → set_bytes 0 bs ≤ set_bytes 0 as'
    → HasLead as'
unfolding set_bytes
HasLead-of_le [] [] h e k l = k
HasLead-of_le [] (b ∷ bs) h e k l = absurd (omega arith)
HasLead-of_le (a ∷ as') [] h e k l = absurd (omega arith)
HasLead-of_le (zero ∷ as') (b ∷ bs) h e k l = absurd (
    omega (
      arith,
      set_bytes_lt 0 as' bs (omega arith) h.1,
      set_bytes_mono bs 1 (0 * 256 + b) (omega arith),
    ))
HasLead-of_le (suc a ∷ as') (b ∷ bs) h e k l = omega arith

cmp-less : (a b : Ip) → cmp a b ≢ less → ip_to_int b ≤ ip_to_int a
unfolding cmp
cmp-less a b h = ground arith

cmp-greater : (a b : Ip) → cmp a b ≢ greater → ip_to_int a ≤ ip_to_int b
unfolding cmp
cmp-greater a b h = ground arith

-- What `Contains` tells of an address, by its canonical form.
pub record IsIn (r : Range) (a : Ip) : Type 0 where
  pub form : Ip
  pub canonical : Range.canonicalize_ip a ≡ ok form
  pub plain : IsPlain form
  pub one_length : length form ≡ length (slice r.range_end)
  pub not_below : low r ≤ ip_to_int form
  pub not_above : ip_to_int form ≤ high r

contains_bounds :
    (r : Range) (a : Ip) (s e : Ip)
    → r.range_start ≡ some s
    → r.range_end ≡ some e
    → Range.contains_canonical r a ≡ true
    → (length a ≡ length r.subnet.ip) × (ip_to_int s ≤ ip_to_int a) × (ip_to_int a ≤ ip_to_int e)
unfolding Range.contains_canonical
contains_bounds r a s e hs he h = ground (arith, cmp-less a s, cmp-greater a e)

module _ (r : Range) (a : Ip) where
  contains_ok :
      (c : Ip)
      → Range.canonicalize_ip a ≡ ok c
      → Range.contains r a ≡ true
      → Range.contains_canonical r c ≡ true
  unfolding Range.contains
  contains_ok c e h = rw (e, Range.contains) at h

  contains_err : (x : Error) → Range.canonicalize_ip a ≡ err x → ¬ (Range.contains r a ≡ true)
  unfolding Range.contains
  contains_err x e h = cc (rw (e, Range.contains) at h)

contains_form :
    (r : Range) (a : Ip)
    → Range.contains r a ≡ true
    → (c : Ip) × (Range.canonicalize_ip a ≡ ok c) × (Range.contains_canonical r c ≡ true)
contains_form r a h = go (Range.canonicalize_ip a) refl
  where
    go :
        (o : Result Error Ip)
        → Range.canonicalize_ip a ≡ o
        → (c : Ip) × (Range.canonicalize_ip a ≡ ok c) × (Range.contains_canonical r c ≡ true)
    go (ok c) e = (c, e, contains_ok r a c e h)
    go (err x) e = absurd (contains_err r a x e h)

pub contains-IsIn :
    (r : Range) (a : Ip) → IsSound r → IsBytes a → Range.contains r a ≡ true → IsIn r a
contains-IsIn r a s b h =
    let (c, e, k) = contains_form r a h in
    let t = contains_bounds r c s.start s.end s.has_start s.has_end k in
    let canon = canonicalize_ip-IsCanonical a c e in
    let size : length c ≡ length s.start = omega (arith, t.0, s.subnet_length) in
    let bytes = canonicalize_ip-IsBytes a c e b in
    record {
      form = c;
      canonical = e;
      plain = record {
        size = ground (arith, canon);
        bytes = bytes;
        lead = HasLead-of_le c s.start bytes size s.plain_start.lead (
            omega (
              arith,
              t.1,
              ip_to_int_canonical c canon,
              ip_to_int_canonical s.start (IsPlain-IsCanonical s.plain_start),
            ));
      };
      one_length = rw s.has_end (size ∙ s.one_length);
      not_below = rw s.has_start t.1;
      not_above = rw s.has_end t.2;
    }

-- Where an address stands in a list of spots.
pub record StandsIn (qs : List Spot) (p : Spot) : Type 0 where
  pub before : List Spot
  pub after : List Spot
  pub split : qs ≡ before ++ p ∷ after

pub StandsIn-cons : (x : Spot) (qs : List Spot) (p : Spot) → StandsIn qs p → StandsIn (x ∷ qs) p
StandsIn-cons x qs p s = record {
  before = x ∷ s.before;
  after = s.after;
  split = ap (◌∷◌ x) s.split;
}

pub StandsIn-append_left : (qs ps : List Spot) (p : Spot) → StandsIn qs p → StandsIn (qs ++ ps) p
StandsIn-append_left qs ps p s = record {
  before = s.before;
  after = s.after ++ ps;
  split = ap (λ l. l ++ ps) s.split ∙ append_assoc s.before (p ∷ s.after) ps;
}

pub StandsIn-append_right : (qs ps : List Spot) (p : Spot) → StandsIn ps p → StandsIn (qs ++ ps) p
StandsIn-append_right [] ps p s = s
StandsIn-append_right (q ∷ qs) ps p s =
    StandsIn-cons q (qs ++ ps) p (StandsIn-append_right qs ps p s)

module _ (i : ℕ) (r : Range) (end c : Ip) (plain_end : IsPlain end) (plain : IsPlain c)
    (size : length c ≡ length end) where
  pub spots_of-StandsIn :
      (n k : ℕ) (a : Ip)
      → IsPlain a
      → length a ≡ length end
      → ip_to_int a + n ≡ ip_to_int end
      → k ≤ n
      → ip_to_int c ≡ ip_to_int a + k
      → StandsIn (spot_at i r a ∷ spots_of i r n (next_ip a)) (spot_at i r c)
  unfolding spots_of
  spots_of-StandsIn n zero a p l e m v =
      let same : a ≡ c = ip_to_int_inj p plain (omega arith) in
      record { before = []; after = spots_of i r n (next_ip a); split = rw same refl }
  spots_of-StandsIn zero (suc k) a p l e m v = absurd (omega arith)
  spots_of-StandsIn (suc n) (suc k) a p l e m v =
      let s : IsSuccessor a (next_ip a) = next_ip-IsSuccessor a end p plain_end l (omega arith) in
      StandsIn-cons (spot_at i r a) _ _ (
        spots_of-StandsIn n k (next_ip a) s.plain (s.same_length ∙ l) (omega (arith, s.value))
          (omega arith) (omega (arith, s.value)))
