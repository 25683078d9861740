-- ===== src/Quota/Dimensions.antt =====
-- `src/quota-dimensions.ts`: the catalog of billing dimensions, the account's billing period, and
-- the period that a dimension is counted in.
use quantpro_collector.Prelude.{
  ℕ, ◌+◌, ◌-◌, ◌*◌, ◌/◌, Bool, true, false, not, ◌&&◌, ◌||◌, Option, none, some, List, [], ◌∷◌,
  String, str_eq, ltb, leb, find?, if◌then◌else◌,
}
use Prim.Native.String

pub data PeriodKind : Type 0 where
  billing_cycle utc_day storage_integral : PeriodKind

pub record DimensionSpec : Type 0 where
  pub key : String
  pub unit : String
  pub period : PeriodKind
  pub included : Option ℕ
  pub threshold_95 : Option ℕ
  pub provable : Bool
  pub note : String

-- `STORAGE_UNIT_SCALE`
abbrev pub storage_unit_scale : ℕ
storage_unit_scale = 1000

-- `threshold95` of a whole number
unfoldable pub threshold95 : ℕ → ℕ
threshold95 included = included * 95 / 100

abbrev pub unit_scale : String → ℕ
unit_scale unit = if str_eq unit "GB-month" then storage_unit_scale else 1

-- `spec` with a threshold of so many percent. The code multiplies by 0.95 or 1.0 in floating
-- point; on the allowances of the catalog the rounded product is the exact one.
unfoldable pub spec_at :
    (percent : ℕ) (key unit : String) → PeriodKind → Option ℕ → Bool → String → DimensionSpec
spec_at percent key unit period included provable note = record {
  key = key;
  unit = unit;
  period = period;
  included = included;
  threshold_95 = elim included [
    | none ↦ none
    | some n ↦ some (n * unit_scale unit * percent / 100)
  ];
  provable = provable;
  note = note;
}

abbrev spec_of : (key unit : String) → PeriodKind → Option ℕ → Bool → String → DimensionSpec
spec_of = spec_at 95

-- `QUOTA_DIMENSIONS`
unfoldable pub quota_dimensions : List DimensionSpec
unfolding spec_at
quota_dimensions =
    spec_of "workers.requests" "requests" billing_cycle (some 10_000_000) false
      "inbound requests are billed on arrival; Worker code cannot stop the request that reaches it"
    ∷ spec_of "workers.cpu_ms" "cpu_ms" billing_cycle (some 30_000_000) false
        "CPU has an unpredictable tail and includes authentication/denial work; no provable per-request upper bound"
    ∷ spec_of "d1.rows_read" "rows" billing_cycle (some 25_000_000_000) true
        "provable only for index/key bounded statements; scanned rows, not returned rows"
    ∷ spec_of "d1.rows_written" "rows" billing_cycle (some 50_000_000) true
        "index maintenance and retries also write rows"
    ∷ spec_of "d1.storage_gb_month" "GB-month" storage_integral (some 5) false
        "time integral over the billing cycle; requires verified cycle end and verified stored bytes"
    ∷ spec_of "kv.reads" "reads" billing_cycle (some 10_000_000) true
        "per binding path inventory required"
    ∷ spec_of "kv.writes" "writes" billing_cycle (some 1_000_000) true
        "per binding path inventory required"
    ∷ spec_of "kv.deletes" "deletes" billing_cycle (some 1_000_000) true
        "per binding path inventory required"
    ∷ spec_of "kv.lists" "lists" billing_cycle (some 1_000_000) true
        "per binding path inventory required"
    ∷ spec_of "kv.storage_gb_month" "GB-month" storage_integral (some 1) false
        "time integral; account-wide KV inventory is not proven for this Collector"
    ∷ spec_of "r2.class_a" "Class A ops" billing_cycle (some 1_000_000) true
        "`put`/`list` are Class A"
    ∷ spec_of "r2.class_b" "Class B ops" billing_cycle (some 10_000_000) true
        "`get`/`head` are Class B"
    ∷ spec_of "r2.storage_gb_month" "GB-month" storage_integral (some 10) false
        "time integral; new bytes bill for the remainder of the cycle, not a flat 10GB capacity"
    ∷ spec_of "r2.ia_class_a" "IA Class A ops" billing_cycle none false
        "Infrequent Access has no included allowance; any IA use is unadmissible"
    ∷ spec_of "r2.ia_class_b" "IA Class B ops" billing_cycle none false
        "Infrequent Access has no included allowance; any IA use is unadmissible"
    ∷ spec_of "r2.ia_storage_gb_month" "IA GB-month" storage_integral none false
        "Infrequent Access has no included allowance; any IA use is unadmissible"
    ∷ spec_at 100 "ai.neurons" "Neurons" utc_day (some 10_000) true
        "owner-approved daily-budget admission; threshold raised to the FULL free allowance on 2026-09-30 (owner: previous 95% line was too conservative against the observed ~9-24 neurons/document) - the line is the zero-cost boundary, usage inside it never bills; bge-m3 is 1075 neurons/M input tokens and the embedding pipeline caps a document at 32 chunks x 1,350 chars, so 1 char = 1 token (worst case) proves a 47-neuron per-document cap; run declarations add retry headroom; off-ledger drift is covered by the runtime-bootstrapped daily baseline headroom"
    ∷ spec_of "vectorize.queried_dims" "queried dimensions" billing_cycle (some 50_000_000) true
        "query dimensions x billed query count; requires calibrated vector dimension and query count"
    ∷ spec_of "vectorize.stored_dims" "stored dimensions" storage_integral (some 10_000_000) false
        "allocation-time storage semantics; stored dimensions are a capacity/stock gate, not a monthly consumption counter"
    ∷ []

-- `dimensionSpec`: the keys are distinct, so that the first entry is the last
unfoldable pub dimension_spec : String → Option DimensionSpec
unfolding quota_dimensions
dimension_spec key = find? (λ e. str_eq e.key key) quota_dimensions

unfoldable pub is_dimension_key : String → Bool
unfolding dimension_spec
is_dimension_key key = elim (dimension_spec key) [ none ↦ false | some e ↦ true ]

unfoldable pub admission_ceiling : String → Option ℕ
unfolding dimension_spec
admission_ceiling key = elim (dimension_spec key) [ none ↦ none | some e ↦ e.threshold_95 ]

pub data AnchorKind : Type 0 where
  subscription_renewal unknown : AnchorKind

pub record AccountPeriodAnchor : Type 0 where
  pub account_id : String
  pub period_start : String
  pub period_end : String
  pub anchor_kind : AnchorKind
  pub source : String
  pub source_version : String
  pub verified_at : String

-- `Date.parse` and `toISOString`; an instant is its milliseconds since the epoch.
pub record Dates : Type 0 where
  pub date_parse : String → Option ℕ
  pub iso : ℕ → String

abbrev is_renewal : AnchorKind → Bool
is_renewal subscription_renewal = true
is_renewal unknown = false

pub record AnchorTimes : Type 0 where
  pub start : ℕ
  pub end : ℕ
  pub verified : ℕ

-- The instants of an anchor that `isVerifiedAnchor` accepts: start, end and verification.
unfoldable pub anchor_times : Dates → Option AccountPeriodAnchor → Option AnchorTimes
anchor_times dates none = none
anchor_times dates (some a) =
    if not (is_renewal a.anchor_kind) then none else elim (dates.date_parse a.period_start) [
      | none ↦ none
      | some start ↦ elim (dates.date_parse a.period_end) [
        | none ↦ none
        | some end ↦ elim (dates.date_parse a.verified_at) [
          | none ↦ none
          | some verified ↦
              if ltb start end && leb start verified
              then some (record { start = start; end = end; verified = verified })
              else none
        ]
      ]
    ]

unfoldable pub is_verified_anchor : Dates → Option AccountPeriodAnchor → Bool
unfolding anchor_times
is_verified_anchor dates anchor = elim (anchor_times dates anchor) [ none ↦ false | some t ↦ true ]

pub record ResolvedPeriod : Type 0 where
  pub period_kind : PeriodKind
  pub period_key : String
  pub period_start : String
  pub period_end : String

infixr 65 ◌⧺◌
abbrev pub ◌⧺◌ : String → String → String
a ⧺ b = String.◌++◌ a b

-- the first characters of a text
unfoldable pub prefix : ℕ → String → String
prefix n String.[] = ""
prefix n (String.◌∷◌ c s) = if ltb 0 n then String.◌∷◌ c (prefix (n - 1) s) else ""

abbrev day_ms : ℕ
day_ms = 86_400_000

-- The UTC day of an instant. Its start always parses, so `none` does not occur there.
unfoldable pub utc_day_period : Dates → ℕ → Option ResolvedPeriod
utc_day_period dates now =
    let day = prefix 10 (dates.iso now) in
    let start = day ⧺ "T00:00:00.000Z" in
    elim (dates.date_parse start) [
      | none ↦ none
      | some t ↦ some (record {
        period_kind = utc_day;
        period_key = "utc-day:" ⧺ day;
        period_start = start;
        period_end = dates.iso (t + day_ms);
      })
    ]

-- The account's period, if it is verified and the instant lies in it.
unfoldable pub cycle_period :
    Dates → PeriodKind → Option AccountPeriodAnchor → ℕ → Option ResolvedPeriod
unfolding anchor_times
cycle_period dates kind none now = none
cycle_period dates kind (some a) now = elim (anchor_times dates (some a)) [
  | none ↦ none
  | some t ↦
      if ltb now t.start || leb t.end now || ltb now t.verified
      then none
      else some (record {
        period_kind = kind;
        period_key = "cycle:" ⧺ a.period_start ⧺ ".." ⧺ a.period_end;
        period_start = a.period_start;
        period_end = a.period_end;
      })
]

-- `resolvePeriod` at an instant, `none` for an invalid date
unfoldable pub resolve_period :
    Dates → DimensionSpec → Option AccountPeriodAnchor → Option ℕ → Option ResolvedPeriod
unfolding utc_day_period cycle_period
resolve_period dates specification anchor none = none
resolve_period dates specification anchor (some now) = elim (DimensionSpec.period specification) [
  | utc_day ↦ utc_day_period dates now
  | billing_cycle ↦ cycle_period dates billing_cycle anchor now
  | storage_integral ↦ cycle_period dates storage_integral anchor now
]
