-- ===== src/IpText/RoundTrip.antt =====
-- Reading the text of an IP of pkg/ip/ip.go.
use plugins.Prelude.{
  ℕ, ap, ◌∙◌, ◌≡◌, refl, List, [], ◌∷◌, Bool, true, false, Option, some, ok, Text, any, length,
  ◌==◌, ltb, Bool-cases, inl, inr, arith, ◌<◌,
}
use plugins.Net.{Ip, IpNet}
use plugins.IpText.{new_ip, parse_ip, string_of, marshal_text, unmarshal_text}

abbrev pub slashes : Text → Bool
slashes s = any (λ c. c == b'/') s

module _ (parse_cidr : Text → Option (Ip × IpNet)) (parse_addr : Text → Option Ip)
    (net_text : IpNet → Text) (ip_text : Ip → Text) where
  read_back :
      (b : Text) (i : IpNet)
      → 0 < length b
      → parse_ip parse_cidr parse_addr net_text ip_text b ≡ some i
      → unmarshal_text parse_cidr parse_addr net_text ip_text b ≡ ok i
  unfolding unmarshal_text
  read_back b i n h =
      let e : (length b == 0) ≡ false = ground (arith, n) in simp (unmarshal_text, e, h) refl

  marshal_text-string_of :
      (i : IpNet)
      → 0 < length i.ip
      → marshal_text parse_cidr parse_addr net_text ip_text i
        ≡ string_of parse_cidr parse_addr net_text ip_text i
  unfolding marshal_text
  marshal_text-string_of i h =
      let e : (length i.ip == 0) ≡ false = ground (arith, h) in simp (marshal_text, e) refl

  parse_net :
      (i net : IpNet)
      → slashes (net_text i) ≡ true
      → parse_cidr (net_text i) ≡ some (i.ip, net)
      → net.mask ≡ i.mask
      → parse_ip parse_cidr parse_addr net_text ip_text (net_text i) ≡ some i
  unfolding parse_ip new_ip
  parse_net i net c p m = rw (parse_ip, c, p, m) refl

  parse_plain :
      (i : IpNet)
      → i.mask ≡ []
      → slashes (ip_text i.ip) ≡ false
      → parse_addr (ip_text i.ip) ≡ some i.ip
      → parse_ip parse_cidr parse_addr net_text ip_text (ip_text i.ip) ≡ some i
  unfolding parse_ip new_ip
  parse_plain i m s a = rw (parse_ip, s, a, m) refl

  -- Reading the text of an IP gives it back, if it has an address, its network's text has a slash and
  -- is read as the address and a network with the mask, and its address's text has no slash, is not
  -- empty and is read as the address.
  pub unmarshal_text-marshal_text :
      (i net : IpNet)
      → 0 < length i.ip
      → slashes (net_text i) ≡ true
      → parse_cidr (net_text i) ≡ some (i.ip, net)
      → net.mask ≡ i.mask
      → slashes (ip_text i.ip) ≡ false
      → 0 < length (ip_text i.ip)
      → parse_addr (ip_text i.ip) ≡ some i.ip
      → unmarshal_text parse_cidr parse_addr net_text ip_text
          (marshal_text parse_cidr parse_addr net_text ip_text i)
        ≡ ok i
  unfolding string_of
  unmarshal_text-marshal_text i net h c p m s n a =
      ap (unmarshal_text parse_cidr parse_addr net_text ip_text) (marshal_text-string_of i h)
      ∙ elim (Bool-cases (ltb 0 (length i.mask))) [
        | inl e ↦
            rw (string_of, e)
              (read_back (net_text i) i (some_slash (net_text i) c) (parse_net i net c p m))
        | inr e ↦
            rw (string_of, e) (read_back (ip_text i.ip) i n (parse_plain i (no_mask i.mask e) s a))
      ]
    where
      some_slash : (b : Text) → slashes b ≡ true → 0 < length b
      some_slash [] k = absurd cc
      some_slash (x ∷ b) k = omega arith

      no_mask : (b : List ℕ) → ltb 0 (length b) ≡ false → b ≡ []
      no_mask [] k = refl
      no_mask (x ∷ b) k = absurd (ground (arith, k))
