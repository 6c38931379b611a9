-- ===== src/Dhcp/Options.antt =====
-- plugins/ipam/dhcp/options.go: what is read from the options of a packet.
--
-- The options are a map from codes to bytes, as `ParseOptions` of the DHCP library gives it; times
-- are in nanoseconds.
pub mod Routes
use plugins.Prelude.{
  ℕ, zero, suc, ◌+◌, ◌-◌, ◌*◌, ◌/◌, List, [], ◌∷◌, ◌++◌, Bool, true, false, Option, none, some,
  Result, ok, err, ◌>>=◌, length, take, drop, ◌==◌, leb, ltb, if◌then◌else◌,
}
use plugins.Net.{Ip, IpMask, IpNet, slice, default_mask, cidr_mask}

abbrev pub Options : Type 0
Options = List (ℕ × List ℕ)

-- `types.Route`
pub record Route : Type 0 where
  pub dst : IpNet
  pub gw : Option Ip

unfoldable pub option : Options → ℕ → Option (List ℕ)
option [] code = none
option ((c, bytes) ∷ opts) code = if c == code then some bytes else option opts code

-- the codes of the DHCP library that the plugin uses
abbrev pub subnet_mask : ℕ
subnet_mask = 1

abbrev pub router : ℕ
router = 3

abbrev pub static_route : ℕ
static_route = 33

abbrev pub lease_time : ℕ
lease_time = 51

abbrev pub renewal_time : ℕ
renewal_time = 58

abbrev pub rebinding_time : ℕ
rebinding_time = 59

abbrev pub classless : ℕ
classless = 121

unfoldable pub parse_router : Options → Option Ip
parse_router opts = elim (option opts router) [
  | none ↦ none
  | some bytes ↦ if length bytes == 4 then some bytes else none
]

abbrev pub classful_subnet : Ip → IpNet
classful_subnet sn = record { ip = sn; mask = slice (default_mask sn) }

-- The loop of `parseRoutes`: each round reads 8 bytes.
unfoldable pub static_routes : List ℕ → List Route
static_routes (a ∷ b ∷ c ∷ d ∷ e ∷ f ∷ g ∷ h ∷ opt) =
    record { dst = classful_subnet (a ∷ b ∷ c ∷ d ∷ []); gw = some (e ∷ f ∷ g ∷ h ∷ []) }
    ∷ static_routes opt
static_routes _ = []

unfoldable pub parse_routes : Options → List Route
parse_routes opts = elim (option opts static_route) [ none ↦ [] | some opt ↦ static_routes opt ]

-- The bytes of a network of a width: the bits after the width are left out.
unfoldable pub octets : ℕ → ℕ
octets width = if width == 0 then 0 else (width - 1) / 8 + 1

-- `copy` into four zero bytes
abbrev pub padded : List ℕ → Ip
padded sn = take 4 (sn ++ 0 ∷ 0 ∷ 0 ∷ 0 ∷ [])

abbrev pub cidr_route : ℕ → List ℕ → Ip → Route
cidr_route width sn gw = record {
  dst = record { ip = padded sn; mask = cidr_mask 4 width };
  gw = some gw;
}

-- The loop of `parseCIDRRoutes`; none is its return of nil. Each round reads 5 bytes at least.
unfoldable pub cidr_routes : ℕ → List ℕ → Option (List Route)
cidr_routes zero opt = some []
cidr_routes (suc fuel) [] = some []
cidr_routes (suc fuel) (width ∷ opt) =
    let n = octets width in
    let rest = cidr_routes fuel (drop 4 (drop n opt)) in
    let route = cidr_route width (take n opt) (take 4 (drop n opt)) in
    if ltb (length opt) 4
    then some []
    else if ltb 32 width
    then none
    else if ltb (length opt) (n + 4)
    then none
    else elim rest [ none ↦ none | some routes ↦ some (route ∷ routes) ]

unfoldable pub parse_cidr_routes : Options → List Route
parse_cidr_routes opts = elim (option opts classless) [
  | none ↦ []
  | some opt ↦ elim (cidr_routes (length opt) opt) [ none ↦ [] | some routes ↦ routes ]
]

unfoldable pub parse_subnet_mask : Options → Option IpMask
parse_subnet_mask opts = option opts subnet_mask

pub data OptionError : Type 0 where
  missing bad_length : OptionError

abbrev second : ℕ
second = 1000000000

abbrev duration_of : List ℕ → Result OptionError ℕ
duration_of (a ∷ b ∷ c ∷ d ∷ []) = ok ((((a * 256 + b) * 256 + c) * 256 + d) * second)
duration_of _ = err bad_length

-- `parseDuration`. A number of 32 bits of seconds is below `2 ^ 63` nanoseconds.
unfoldable pub parse_duration : Options → ℕ → Result OptionError ℕ
parse_duration opts code = elim (option opts code) [
  | none ↦ err missing
  | some val ↦ duration_of val
]
