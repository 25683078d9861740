-- ===== src/Quota/Catalog.antt =====
-- The catalog of `src/quota-dimensions.ts`, and the periods that it resolves.
use quantpro_collector.Prelude.{
  ℕ, ◌*◌, ◌≤◌, ◌<◌, ◌≡◌, refl, Bool, true, false, ◌&&◌, Option, none, some, String, str_eq, ◌==◌,
  all, arith, if◌then◌else◌, Option-cases, inl, inr,
}
use quantpro_collector.Quota.Dimensions.{
  PeriodKind, billing_cycle, utc_day, storage_integral, DimensionSpec, quota_dimensions,
  dimension_spec, unit_scale, threshold95, AccountPeriodAnchor, AnchorTimes, Dates, ResolvedPeriod,
  anchor_times, cycle_period, resolve_period,
}

abbrev same_threshold : Option ℕ → Option ℕ → Bool
same_threshold none none = true
same_threshold (some a) (some b) = a == b
same_threshold _ _ = false

-- the threshold that the header of the file promises
abbrev promised : Option ℕ → String → Option ℕ
promised none unit = none
promised (some n) unit = some (threshold95 (n * unit_scale unit))

abbrev full : Option ℕ → String → Option ℕ
full none unit = none
full (some n) unit = some (n * unit_scale unit)

abbrev found : Option DimensionSpec → DimensionSpec → Bool
found none e = false
found (some d) e = str_eq d.key e.key

-- Every entry of the catalog is the one that its key looks up, and its threshold is 95 percent of
-- the allowance, rounded down, in the ledger's unit, except for the AI neurons, whose threshold is
-- the full allowance.
pub quota_dimensions-thresholds :
    all
      (λ e.
        found (dimension_spec e.key) e
        && same_threshold e.threshold_95 (
            if str_eq e.key "ai.neurons"
            then full e.included e.unit
            else promised e.included e.unit))
      quota_dimensions
    ≡ true
unfolding quota_dimensions dimension_spec threshold95
quota_dimensions-thresholds = refl

abbrev is_day : PeriodKind → Bool
is_day utc_day = true
is_day _ = false

anchor_times-order :
    (dates : Dates) (a : AccountPeriodAnchor) (t : AnchorTimes)
    → anchor_times dates (some a) ≡ some t
    → (dates.date_parse a.period_start ≡ some t.start)
      × (dates.date_parse a.period_end ≡ some t.end)
      × (t.start < t.end)
unfolding anchor_times
anchor_times-order dates a t h = ground arith

cycle_period-inside :
    (dates : Dates) (k : PeriodKind) (a : AccountPeriodAnchor) (now : ℕ) (p : ResolvedPeriod)
    → cycle_period dates k (some a) now ≡ some p
    → ((p.period_start ≡ a.period_start) × (p.period_end ≡ a.period_end))
      × ((start end : ℕ)
          → dates.date_parse a.period_start ≡ some start
          → dates.date_parse a.period_end ≡ some end
          → (start ≤ now) × (now < end))
unfolding cycle_period
cycle_period-inside dates k a now p h = elim (Option-cases (anchor_times dates (some a))) [
  | inl e ↦ absurd (ground (arith, e))
  | inr (t, e) ↦
      (ground (arith, e), λ start end f g. ground (arith, e, anchor_times-order dates a t e))
]

-- A period that is resolved for a dimension that is not counted by the day is the account's: its
-- texts are the anchor's, and the instant lies in it.
pub resolve_period-cycle :
    (dates : Dates) (d : DimensionSpec) (a : AccountPeriodAnchor) (now : ℕ) (p : ResolvedPeriod)
    → is_day d.period ≡ false
    → resolve_period dates d (some a) (some now) ≡ some p
    → ((p.period_start ≡ a.period_start) × (p.period_end ≡ a.period_end))
      × ((start end : ℕ)
          → dates.date_parse a.period_start ≡ some start
          → dates.date_parse a.period_end ≡ some end
          → (start ≤ now) × (now < end))
unfolding resolve_period
resolve_period-cycle dates d a now p k h = go d.period k h
  where
    go :
        (kind : PeriodKind)
        → is_day kind ≡ false
        → resolve_period dates (record d { period = kind }) (some a) (some now) ≡ some p
        → ((p.period_start ≡ a.period_start) × (p.period_end ≡ a.period_end))
          × ((start end : ℕ)
              → dates.date_parse a.period_start ≡ some start
              → dates.date_parse a.period_end ≡ some end
              → (start ≤ now) × (now < end))
    go billing_cycle k h = cycle_period-inside dates billing_cycle a now p h
    go storage_integral k h = cycle_period-inside dates storage_integral a now p h
    go utc_day k h = absurd (ground arith)
