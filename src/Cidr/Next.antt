-- ===== src/Cidr/Next.antt =====
-- The successor of an address is its increment by ripple carry, where the address does not begin
-- with a zero byte; the order of addresses of one length.
use plugins.Prelude.{
  ℕ, zero, suc, ◌+◌, ◌*◌, ◌≤◌, ◌<◌, ◌≡◌, refl, ap, ◌∙◌, sym, ◌⊎◌, inl, inr, List, [], ◌∷◌, Bool,
  true, false, ◌==◌, if◌then◌else◌, length, arith, Bool-cases,
}
use plugins.Net.{Ip, to4, to16, has_v4_prefix}
use plugins.Net.Facts.{IsBytes, IsCanonical}
use plugins.Cidr.{set_bytes, bytes_onto, int_bytes, ip_to_int, int_to_ip, next_ip}
use plugins.Cidr.Bytes.{HasLead, int_bytes-set_bytes, set_bytes_inj}

-- The increment of each byte list of a length, with the carry out of its first byte.
unfoldable pub inc_bytes : List ℕ → Bool × List ℕ
inc_bytes [] = (true, [])
inc_bytes (b ∷ bs) =
    let (carry, rest) = inc_bytes bs in
    if carry
    then (if b == 255 then (true, 0 ∷ rest) else (false, (b + 1) ∷ rest))
    else (false, b ∷ rest)

inc_bytes-value :
    (n : ℕ) (bs : List ℕ)
    → set_bytes n bs + 1 ≡ (
        if (inc_bytes bs).0
        then set_bytes (n + 1) (inc_bytes bs).1
        else set_bytes n (inc_bytes bs).1)
unfolding set_bytes inc_bytes
inc_bytes-value n [] = refl
inc_bytes-value n (b ∷ bs) = elim (Bool-cases (inc_bytes bs).0) [
  | inr e ↦ inc_bytes-value (n * 256 + b) bs ∙ rw e refl
  | inl e ↦ elim (Bool-cases (b == 255)) [
    | inl f ↦
        let g : n * 256 + b + 1 ≡ (n + 1) * 256 + 0 = ground arith in
        inc_bytes-value (n * 256 + b) bs ∙ rw (e, f) (ap (λ k. set_bytes k (inc_bytes bs).1) g)
    | inr f ↦
        let g : n * 256 + b + 1 ≡ n * 256 + (b + 1) = omega arith in
        inc_bytes-value (n * 256 + b) bs ∙ rw (e, f) (ap (λ k. set_bytes k (inc_bytes bs).1) g)
  ]
]

length-inc_bytes : (bs : List ℕ) → length (inc_bytes bs).1 ≡ length bs
unfolding inc_bytes
length-inc_bytes [] = refl
length-inc_bytes (b ∷ bs) = ground (arith, length-inc_bytes bs)

inc_bytes-IsBytes : (bs : List ℕ) → IsBytes bs → IsBytes (inc_bytes bs).1
unfolding inc_bytes
inc_bytes-IsBytes [] h = tt
inc_bytes-IsBytes (b ∷ bs) h = ground (arith, inc_bytes-IsBytes bs h.1)

inc_bytes-HasLead : (bs : List ℕ) → HasLead bs → (inc_bytes bs).0 ≡ false → HasLead (inc_bytes bs).1
unfolding inc_bytes
inc_bytes-HasLead [] h e = elim h [ ]
inc_bytes-HasLead (b ∷ bs) h e = ground arith

-- A byte list whose increment carries out is the greatest of its length.
pub set_bytes_mono : (bs : List ℕ) (n m : ℕ) → n ≤ m → set_bytes n bs ≤ set_bytes m bs
unfolding set_bytes
set_bytes_mono [] n m h = h
set_bytes_mono (b ∷ bs) n m h = set_bytes_mono bs (n * 256 + b) (m * 256 + b) (omega arith)

carry_greatest :
    (n : ℕ) (as' bs : List ℕ)
    → length as' ≡ length bs
    → IsBytes bs
    → (inc_bytes as').0 ≡ true
    → set_bytes n bs ≤ set_bytes n as'
unfolding set_bytes inc_bytes
carry_greatest n [] [] e h c = omega arith
carry_greatest n [] (b ∷ bs) e h c = absurd (omega arith)
carry_greatest n (a ∷ as') [] e h c = absurd (omega arith)
carry_greatest n (a ∷ as') (b ∷ bs) e h c =
    let i = set_bytes_mono bs (n * 256 + b) (n * 256 + a) (ground arith) in
    let j = carry_greatest (n * 256 + a) as' bs (omega arith) h.1 (ground arith) in omega arith

-- An address of either family that does not begin with a zero byte.
pub record IsPlain (a : Ip) : Type 0 where
  pub size : (length a ≡ 4) ⊎ (length a ≡ 16)
  pub bytes : IsBytes a
  pub lead : HasLead a

HasLead-prefix : (a : Ip) → HasLead a → has_v4_prefix a ≡ false
HasLead-prefix [] h = elim h [ ]
HasLead-prefix (b ∷ bs) h = ground arith

pub IsPlain-IsCanonical : {a : Ip} → IsPlain a → IsCanonical a
IsPlain-IsCanonical {a} p = ground (arith, HasLead-prefix a p.lead)

pub ip_to_int_canonical : (a : Ip) → IsCanonical a → ip_to_int a ≡ set_bytes 0 a
unfolding ip_to_int to4 to16
ip_to_int_canonical a h = ground arith

pub ip_to_int_inj : {a b : Ip} → IsPlain a → IsPlain b → ip_to_int a ≡ ip_to_int b → a ≡ b
ip_to_int_inj {a} {b} p q e = set_bytes_inj a b p.bytes p.lead q.bytes q.lead (
    sym (ip_to_int_canonical a (IsPlain-IsCanonical p))
    ∙ e
    ∙ ip_to_int_canonical b (IsPlain-IsCanonical q))

-- The successor of an address that does not begin with a zero byte and is not the greatest of its
-- length is the increment of its bytes.
pub next_ip-inc_bytes : (a : Ip) → IsPlain a → (inc_bytes a).0 ≡ false → next_ip a ≡ (inc_bytes a).1
unfolding next_ip
next_ip-inc_bytes a p c =
    let v : ip_to_int a + 1 ≡ set_bytes 0 (inc_bytes a).1 =
      rw (ip_to_int_canonical a (IsPlain-IsCanonical p)) (inc_bytes-value 0 a ∙ rw c refl) in
    unfold int_to_ip in
    ap int_bytes v
    ∙ int_bytes-set_bytes _ (inc_bytes-IsBytes a p.bytes) (inc_bytes-HasLead a p.lead c)

carry_of_lt :
    {a b : Ip}
    → IsPlain a
    → IsPlain b
    → length a ≡ length b
    → ip_to_int a < ip_to_int b
    → (inc_bytes a).0 ≡ false
carry_of_lt {a} {b} p q e h = elim (Bool-cases (inc_bytes a).0) [
  | inr n ↦ n
  | inl c ↦ absurd (
      omega (
        arith,
        carry_greatest 0 a b e q.bytes c,
        ip_to_int_canonical a (IsPlain-IsCanonical p),
        ip_to_int_canonical b (IsPlain-IsCanonical q),
      ))
]

pub record IsSuccessor (a b : Ip) : Type 0 where
  pub plain : IsPlain b
  pub same_length : length b ≡ length a
  pub value : ip_to_int b ≡ ip_to_int a + 1

-- Below another address of its length and family, an address that does not begin with a zero byte
-- has a successor of the same length whose number is one more.
pub next_ip-IsSuccessor :
    (a b : Ip)
    → IsPlain a
    → IsPlain b
    → length a ≡ length b
    → ip_to_int a < ip_to_int b
    → IsSuccessor a (next_ip a)
next_ip-IsSuccessor a b p q e h = rw (next_ip-inc_bytes a p c) (record {
  plain = plain;
  same_length = length-inc_bytes a;
  value =
      ip_to_int_canonical _ (IsPlain-IsCanonical plain)
      ∙ sym v
      ∙ ap (λ n. n + 1) (sym (ip_to_int_canonical a (IsPlain-IsCanonical p)));
})
  where
    c : (inc_bytes a).0 ≡ false
    c = carry_of_lt p q e h

    plain : IsPlain (inc_bytes a).1
    plain = record {
      size = ground (arith, length-inc_bytes a, p.size);
      bytes = inc_bytes-IsBytes a p.bytes;
      lead = inc_bytes-HasLead a p.lead c;
    }

    v : set_bytes 0 a + 1 ≡ set_bytes 0 (inc_bytes a).1
    v = inc_bytes-value 0 a ∙ rw c refl

int_bytes-zero : int_bytes 0 ≡ []
unfolding int_bytes bytes_onto
int_bytes-zero = refl

length-int_bytes-set_bytes-le :
    (bs : List ℕ) → IsBytes bs → length (int_bytes (set_bytes 0 bs)) ≤ length bs
unfolding set_bytes
length-int_bytes-set_bytes-le [] h = rw int_bytes-zero (omega arith)
length-int_bytes-set_bytes-le (zero ∷ bs) h = omega (arith, length-int_bytes-set_bytes-le bs h.1)
length-int_bytes-set_bytes-le (suc b ∷ bs) h =
    rw (int_bytes-set_bytes (suc b ∷ bs) h (omega arith)) (omega arith)

-- The successor of an address that begins with a zero byte is shorter than the address, unless the
-- increment carries into that byte: `0.0.0.1` and `64:ff9b::1` have successors of fewer bytes.
pub length-next_ip_zero_lead :
    (bs : List ℕ) (h : IsBytes bs)
    → IsCanonical (0 ∷ bs)
    → (inc_bytes bs).0 ≡ false
    → length (next_ip (0 ∷ bs)) < length (0 ∷ bs)
unfolding next_ip int_to_ip set_bytes
length-next_ip_zero_lead bs h k c =
    let v : ip_to_int (0 ∷ bs) + 1 ≡ set_bytes 0 (inc_bytes bs).1 =
      rw (ip_to_int_canonical (0 ∷ bs) k) (inc_bytes-value 0 bs ∙ rw c refl) in
    rw v
      (omega (arith, length-int_bytes-set_bytes-le _ (inc_bytes-IsBytes bs h), length-inc_bytes bs))
