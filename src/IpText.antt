-- ===== src/IpText.antt =====
-- pkg/ip/ip.go: the type IP, with its text form. The text forms of Go's package `net` are parameters.
pub mod RoundTrip
use plugins.Prelude.{
  List, [], ◌∷◌, Bool, true, false, Option, none, some, Result, ok, err, Text, any, length, ◌==◌,
  ltb, if◌then◌else◌,
}
use plugins.Net.{Ip, IpMask, IpNet}

pub data TextError : Type 0 where
  invalid_ip : TextError

unfoldable pub new_ip : Ip → IpMask → IpNet
new_ip ip mask = record { ip = ip; mask = mask }

module _ (parse_cidr : Text → Option (Ip × IpNet)) (parse_addr : Text → Option Ip)
    (net_text : IpNet → Text) (ip_text : Ip → Text) where
  abbrev has_slash : Text → Bool
  has_slash s = any (λ c. c == b'/') s

  -- `ParseIP`
  unfoldable pub parse_ip : Text → Option IpNet
  parse_ip s =
      if has_slash s
      then elim (parse_cidr s) [ none ↦ none | some (ip, net) ↦ some (new_ip ip net.mask) ]
      else elim (parse_addr s) [ none ↦ none | some ip ↦ some (new_ip ip []) ]

  -- `String`
  unfoldable pub string_of : IpNet → Text
  string_of i = if ltb 0 (length i.mask) then net_text i else ip_text i.ip

  unfoldable pub marshal_text : IpNet → Text
  marshal_text i = if length i.ip == 0 then [] else string_of i

  unfoldable pub unmarshal_text : Text → Result TextError IpNet
  unmarshal_text b =
      if length b == 0
      then ok (record { ip = []; mask = [] })
      else elim (parse_ip b) [ none ↦ err invalid_ip | some ip ↦ ok ip ]
