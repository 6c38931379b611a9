-- ===== src/HostLocal/Range/Canonical.antt =====
-- What `canonicalizeIP` keeps of an address: its number, and what `Equal` says of it.
use plugins.Prelude.{
  ◌<◌, ◌≡◌, ◌⊎◌, refl, ap, sym, ◌∙◌, true, length, drop, arith, inl, inr, text_eq-eq, text_eq_self,
  length-drop, All-drop, ok,
}
use plugins.Net.{Ip, to4, to16, equal, has_v4_prefix}
use plugins.Net.Facts.{IsCanonical, IsBytes}
use plugins.Cidr.{ip_to_int, set_bytes}
use plugins.Cidr.Next.{ip_to_int_canonical}
use plugins.HostLocal.Range.{canonicalize_ip}

-- The two ways to a canonical form.
abbrev Form : Ip → Ip → Type 0
Form a c =
    ((c ≡ a) × IsCanonical a) ⊎ ((length a ≡ 16) × (has_v4_prefix a ≡ true) × (c ≡ drop 12 a))

canonicalize_ip-Form : (a c : Ip) → canonicalize_ip a ≡ ok c → Form a c
unfolding canonicalize_ip to4 to16
canonicalize_ip-Form a c h = ground arith

pub canonicalize_ip-IsCanonical : (a c : Ip) → canonicalize_ip a ≡ ok c → IsCanonical c
canonicalize_ip-IsCanonical a c h = elim (canonicalize_ip-Form a c h) [
  | inl (e, k) ↦ rw e k
  | inr (l, p, e) ↦ inl (omega (arith, ap length e, length-drop 12 a))
]

pub canonicalize_ip-IsBytes : (a c : Ip) → canonicalize_ip a ≡ ok c → IsBytes a → IsBytes c
canonicalize_ip-IsBytes a c h b = elim (canonicalize_ip-Form a c h) [
  | inl (e, k) ↦ rw e b
  | inr (l, p, e) ↦ rw e (All-drop (λ x. x < 256) 12 a b)
]

-- A canonical address is its own canonical form.
pub canonicalize_ip_canonical : (a : Ip) → IsCanonical a → canonicalize_ip a ≡ ok a
unfolding canonicalize_ip to4 to16
canonicalize_ip_canonical a h = ground arith

pub ip_to_int-canonicalize_ip : (a c : Ip) → canonicalize_ip a ≡ ok c → ip_to_int a ≡ ip_to_int c
ip_to_int-canonicalize_ip a c h = elim (canonicalize_ip-Form a c h) [
  | inl (e, k) ↦ rw e refl
  | inr (l, p, e) ↦
      let k : IsCanonical c = canonicalize_ip-IsCanonical a c h in
      mapped l p ∙ ap (set_bytes 0) (sym e) ∙ sym (ip_to_int_canonical c k)
]
  where
    mapped : length a ≡ 16 → has_v4_prefix a ≡ true → ip_to_int a ≡ set_bytes 0 (drop 12 a)
    mapped l p = unfold ip_to_int in ground arith

equal_mapped :
    (a c b : Ip)
    → length a ≡ 16
    → has_v4_prefix a ≡ true
    → c ≡ drop 12 a
    → IsCanonical b
    → equal a b ≡ equal c b
unfolding equal
equal_mapped a c b l p e k =
    ground (arith, length-drop 12 a, ap length e, text_eq-eq a b, text_eq_self b)

-- Against a canonical address, `Equal` sees no difference.
pub equal-canonicalize_ip :
    (a c b : Ip) → canonicalize_ip a ≡ ok c → IsCanonical b → equal a b ≡ equal c b
equal-canonicalize_ip a c b h k = elim (canonicalize_ip-Form a c h) [
  | inl (e, _) ↦ rw e refl
  | inr (l, p, e) ↦ equal_mapped a c b l p e k
]
