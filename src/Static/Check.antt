-- ===== src/Static/Check.antt =====
-- CHECK after ADD of plugins/ipam/static.
use plugins.Prelude.{◌≡◌, refl, List, [], ◌∷◌, map, false, some, ok, All, arith}
use plugins.Net.{slice, equal}
use plugins.Net.Facts.{equal_self}
use plugins.Static.{
  Address, IpamConfig, IpConfig, ip_config, add_result, check_address, check_addresses, cmd_check,
}

-- No address is an earlier one.
abbrev pub IsApart : List Address → Type 0
IsApart [] = Unit {0}
IsApart (a ∷ rest) = All (λ b. equal b.address.ip a.address.ip ≡ false) rest × IsApart rest

-- Results of other addresses are passed over.
check_address-skip :
    (b : Address) (i : IpConfig) (ips : List IpConfig)
    → equal b.address.ip i.address.ip ≡ false
    → check_address b (i ∷ ips) ≡ check_address b ips
unfolding check_address
check_address-skip b i ips h = rw h refl

check_address_self :
    (a : Address) (ips : List IpConfig) → check_address a (ip_config a ∷ ips) ≡ ok tt
unfolding check_address
check_address_self a ips = ground (arith, equal_self a.address.ip, equal_self (slice a.gateway))

check_addresses-skip :
    (i : IpConfig) (rest : List Address) (ips : List IpConfig)
    → All (λ b. equal b.address.ip i.address.ip ≡ false) rest
    → check_addresses rest (i ∷ ips) ≡ check_addresses rest ips
unfolding check_addresses
check_addresses-skip i [] ips h = refl
check_addresses-skip i (b ∷ rest) ips h =
    rw (check_addresses, check_address-skip b i ips h.0, check_addresses-skip i rest ips h.1) refl

check_addresses_self :
    (addrs : List Address) → IsApart addrs → check_addresses addrs (map ip_config addrs) ≡ ok tt
unfolding check_addresses
check_addresses_self [] h = refl
check_addresses_self (a ∷ rest) h =
    rw
      (
        check_addresses,
        check_address_self a (map ip_config rest),
        check_addresses-skip (ip_config a) rest (map ip_config rest) h.0,
      )
      (check_addresses_self rest h.1)

-- CHECK accepts the result of ADD, if no address stands twice in the configuration.
pub cmd_check-add_result :
    (conf : IpamConfig)
    → IsApart conf.addresses
    → cmd_check conf (some (add_result conf).ips) ≡ ok tt
unfolding cmd_check add_result
cmd_check-add_result conf h = check_addresses_self conf.addresses h
