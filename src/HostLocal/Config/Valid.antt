-- ===== src/HostLocal/Config/Valid.antt =====
-- What a configuration that `LoadIPAMConfig` accepts is like.
use plugins.Prelude.{
  ℕ, ◌+◌, ◌≤◌, ◌<◌, ◌≡◌, ◌⊎◌, List, [], ◌∷◌, Bool, true, false, none, length, if◌then◌else◌, All,
  Text, text,
}
use plugins.Net.{to4, slice, is_nil}
use plugins.Net.Facts.{IsCanonical}
use plugins.HostLocal.Types.{RangeSet}
use plugins.HostLocal.Range
use plugins.HostLocal.RangeSet
use plugins.HostLocal.RangeSet.Complete.{IsCompleteSet}
use plugins.HostLocal.Config.{IpamConfig, Validated, sets_overlap}

-- The family of a set is that of its first address.
abbrev pub is_v6_set : RangeSet → Bool
is_v6_set [] = false
is_v6_set (r ∷ rs) = is_nil (to4 (slice r.range_start))

abbrev pub v6_sets : List RangeSet → ℕ
v6_sets [] = 0
v6_sets (s ∷ ss) = if is_v6_set s then v6_sets ss + 1 else v6_sets ss

abbrev pub v4_sets : List RangeSet → ℕ
v4_sets [] = 0
v4_sets (s ∷ ss) = if is_v6_set s then v4_sets ss else v4_sets ss + 1

pub record IsValid (many : Bool) (sets : List RangeSet) : Type 0 where
  pub some_set : 0 < length sets
  pub complete : All IsCompleteSet sets
  pub apart : sets_overlap sets ≡ false
  pub families : (many ≡ true) ⊎ ((v4_sets sets ≤ 1) × (v6_sets sets ≤ 1))

-- The sets are complete, and the counts are those of the families.
record IsCounted (v : Validated) (n : ℕ) : Type 0 where
  sets : All IsCompleteSet v.ranges
  count : length v.ranges ≡ n
  v4 : v.num_v4 ≡ v4_sets v.ranges
  v6 : v.num_v6 ≡ v6_sets v.ranges

-- What is said of the result.
abbrev pub IsLoaded : (Text → Text → Bool) → IpamConfig → Text → Type 0
IsLoaded at_least ipam version =
    IsValid (at_least version (text "0.3.0")) ipam.ranges
    × All IsCanonical ipam.ip_args
    × (ipam.range ≡ none)
