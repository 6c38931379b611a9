-- ===== src/Bandwidth/Check.antt =====
-- Which rates plugins/meta/bandwidth accepts, and what CHECK does without any.
use plugins.Prelude.{
  ℕ, ◌/◌, ◌%◌, ◌^◌, ◌<◌, ◌≡◌, ◌⊎◌, inl, inr, ap, sym, ◌∙◌, some, Result, ok, err, arith,
  Result-cases,
}
use plugins.Bandwidth.{
  BandwidthError, BandwidthEntry, PluginConf, get_bandwidth, validate_rate_and_burst,
  validate_entry, parse_config,
}

-- There is no limit, or both numbers are given and the burst in bytes fits in 32 bits.
abbrev pub IsLimit : ℕ → ℕ → Type 0
IsLimit rate burst =
    ((rate ≡ 0) × (burst ≡ 0)) ⊎ ((0 < rate) × (0 < burst) × (burst / 8 % 2 ^ 32 ≡ burst / 8))

validate_rate_and_burst-IsLimit :
    (rate burst : ℕ) (u : Unit {0}) → validate_rate_and_burst rate burst ≡ ok u → IsLimit rate burst
unfolding validate_rate_and_burst
validate_rate_and_burst-IsLimit rate burst u h = ground arith

validate_entry-IsLimit :
    (bw : BandwidthEntry) (u : Unit {0})
    → validate_entry (some bw) ≡ ok u
    → IsLimit bw.ingress_rate bw.ingress_burst × IsLimit bw.egress_rate bw.egress_burst
unfolding validate_entry
validate_entry-IsLimit bw u h =
    elim (Result-cases (validate_rate_and_burst bw.ingress_rate bw.ingress_burst)) [
      | inl (t, e) ↦ (
        validate_rate_and_burst-IsLimit bw.ingress_rate bw.ingress_burst t e,
        validate_rate_and_burst-IsLimit bw.egress_rate bw.egress_burst u
            (rw (validate_entry, e) at h),
      )
      | inr (x, e) ↦ let h' = rw (validate_entry, e) at h in absurd cc
    ]

-- In an accepted configuration each direction has no limit, or a rate and a burst whose bytes fit in
-- 32 bits.
pub parse_config-IsLimit :
    (decoded : Result BandwidthError PluginConf) (conf : PluginConf) (bw : BandwidthEntry)
    → parse_config decoded ≡ ok conf
    → get_bandwidth conf ≡ some bw
    → IsLimit bw.ingress_rate bw.ingress_burst × IsLimit bw.egress_rate bw.egress_burst
unfolding parse_config
parse_config-IsLimit (err e) conf bw h g = absurd cc
parse_config-IsLimit (ok c) conf bw h g = elim (Result-cases (validate_entry (get_bandwidth c))) [
  | inl (u, e) ↦
      let h' = rw (parse_config, e) at h in
      let same : c ≡ conf = cc in
      let valid : validate_entry (get_bandwidth c) ≡ ok u = e in
      validate_entry-IsLimit bw u (sym (ap validate_entry (ap get_bandwidth same ∙ g)) ∙ valid)
  | inr (x, e) ↦ let h' = rw (parse_config, e) at h in absurd cc
]
