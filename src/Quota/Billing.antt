-- ===== src/Quota/Billing.antt =====
-- `src/quota-billing.ts`: the interpretation of a billing payload.
use quantpro_collector.Prelude.{
  ℕ, ◌+◌, ◌-◌, ◌*◌, ◌/◌, Bool, true, false, not, ◌||◌, Option, none, some, List, [], ◌∷◌, String,
  str_eq, ltb, leb, ◌==◌, find?, any, if◌then◌else◌,
}
use quantpro_collector.Json.{Json, null, bool, num, other_num, str, arr, obj, items, fields, get}
use quantpro_collector.Quota.Dimensions.{
  Dates, PeriodKind, utc_day, dimension_spec, prefix, ◌⧺◌, storage_unit_scale,
}
use quantpro_collector.Quota.Admission.{BaselineState, stale, denied, incomplete}

-- The scale is a whole number over a million.
pub record BillingDimensionMapping : Type 0 where
  pub provider_usage_type : String
  pub dimension_key : String
  pub scale : ℕ
  pub evidence : String

-- `BILLING_DIMENSION_MAPPINGS`
abbrev pub billing_dimension_mappings : List BillingDimensionMapping
billing_dimension_mappings = []

pub record BillingReadInput : Type 0 where
  pub http_status : ℕ
  pub fetched_at : String
  pub body : Json
  pub account_id : String
  pub expected_period : Option (String × String)
  pub pagination_complete : Bool
  pub coverage_end : Option String
  pub max_age_ms : ℕ
  pub now : Option ℕ

pub record BaselineObservation : Type 0 where
  pub dimension_key : String
  pub period_key : String
  pub used : ℕ
  pub source_version : String
  pub as_of : String

-- The result; `gate_authority` is always NONE. A denial has no period and no observations.
pub data BillingReadResult : Type 0 where
  deny : BaselineState → (reason : String) → BillingReadResult
  -- an expected period that is no date makes `toISOString` throw
  throws : BillingReadResult
  accept : (period_key : String) → List BaselineObservation → BillingReadResult

abbrev pub text_at : String → List (String × Json) → Option String
text_at k m = elim (get k m) [ some (str s) ↦ some s | _ ↦ none ]

-- `a ?? b`
abbrev pub or_else : Option Json → Option Json → Option Json
or_else none b = b
or_else (some null) b = b
or_else (some a) b = some a

abbrev or_text : Option String → Option String → Option String
or_text none b = b
or_text (some a) b = some a

abbrev first_nonempty : Option String → Option String → String
first_nonempty none none = ""
first_nonempty none (some b) = b
first_nonempty (some a) none = a
first_nonempty (some a) (some b) = if str_eq a "" then b else a

abbrev pub result_of : Option Json → Option (List (String × Json))
result_of (some (obj fs)) = some (fields fs)
result_of _ = none

infixl 5 ◌>>=◌
abbrev pub ◌>>=◌ : {A B : Type 0} → Option A → (A → Option B) → Option B
none >>= f = none
some a >>= f = f a

module _ (dates : Dates) where
  -- `isoOrNull`: the printed instant of a text
  unfoldable pub iso_or_null : Option Json → Option String
  iso_or_null (some (str s)) = elim (dates.date_parse s) [
    | none ↦ none
    | some t ↦ some (dates.iso t)
  ]
  iso_or_null _ = none

  abbrev iso_of : String → Option String
  iso_of s = elim (dates.date_parse s) [ none ↦ none | some t ↦ some (dates.iso t) ]

  -- `row.usage_type`, or `row.type`; an empty one is none
  abbrev pub usage_type : List (String × Json) → Option String
  usage_type m = elim (or_text (text_at "usage_type" m) (text_at "type" m)) [
    | none ↦ none
    | some s ↦ if str_eq s "" then none else some s
  ]

  -- A usage value scaled and rounded up. `fraction` does it for a number that is no integer, and
  -- gives `none` for a negative one.
  unfoldable pub scaled_value : (fraction : String → ℕ → Option ℕ) → ℕ → Option Json → Option ℕ
  scaled_value fraction scale (some (num n)) = some ((n * scale + 999_999) / 1_000_000)
  scaled_value fraction scale (some (other_num t)) = fraction t scale
  scaled_value fraction scale _ = none

  abbrev observation_period : PeriodKind → (period_key coverage_end : String) → String
  observation_period utc_day period_key coverage_end = "utc-day:" ⧺ prefix 10 coverage_end
  observation_period _ period_key coverage_end = period_key

  -- one round of the loop over the usage array, `none` where it denies
  unfoldable pub observe_row :
      (fraction : String → ℕ → Option ℕ)
      → List BillingDimensionMapping
      → (fetched_at period_key coverage_end : String) → Json
      → Option BaselineObservation
  unfolding scaled_value
  observe_row fraction mappings fetched_at period_key coverage_end (obj fs) = do
    let m = fields fs
    kind ← usage_type m
    mapping ← find? (λ e. str_eq (BillingDimensionMapping.provider_usage_type e) kind) mappings
    specification ← dimension_spec mapping.dimension_key
    used ← scaled_value fraction mapping.scale (
        or_else (get "value" m)
          (or_else (get "quantity" m) (or_else (get "used" m) (get "usage" m))))
    some (record {
      dimension_key = mapping.dimension_key;
      period_key = observation_period specification.period period_key coverage_end;
      used = used;
      source_version = "billable-usage@" ⧺ fetched_at;
      as_of = coverage_end;
    })
  observe_row fraction mappings fetched_at period_key coverage_end _ = none

  unfoldable pub observe_rows :
      (fraction : String → ℕ → Option ℕ)
      → List BillingDimensionMapping
      → (fetched_at period_key coverage_end : String) → List Json
      → Option (List BaselineObservation)
  observe_rows fraction mappings fetched_at period_key coverage_end [] = some []
  observe_rows fraction mappings fetched_at period_key coverage_end (v ∷ vs) = do
    o ← observe_row fraction mappings fetched_at period_key coverage_end v
    os ← observe_rows fraction mappings fetched_at period_key coverage_end vs
    some (o ∷ os)

  -- whether the window is the expected one; `none` where an expected text is no date
  unfoldable pub window_matches : String → String → Option (String × String) → Option Bool
  window_matches start end none = some false
  window_matches start end (some p) = do
    expected_start ← iso_of p.0
    if not (str_eq start expected_start)
        then some false
        else do expected_end ← iso_of p.1; some (str_eq end expected_end)

  -- `typeof result.account_id === "string" && result.account_id || ...`
  abbrev account_of : List (String × Json) → String
  account_of m = first_nonempty (text_at "account_id" m) (text_at "account_tag" m)

  abbrev is_true : Option Json → Bool
  is_true (some (bool b)) = b
  is_true _ = false

  -- no currency, or a text
  abbrev currency_ok : Option Json → Bool
  currency_ok none = true
  currency_ok (some (str s)) = true
  currency_ok _ = false

  abbrev lag_of : Option ℕ → String → Option ℕ
  lag_of none end = none
  lag_of (some now) end = elim (dates.date_parse end) [
    | none ↦ none
    | some t ↦ if ltb now t then none else some (now - t)
  ]

  abbrev pub present : Option String → Option Json
  present none = none
  present (some s) = if str_eq s "" then none else some (str s)

  -- the usage array
  unfoldable pub interpret_usage :
      (fraction : String → ℕ → Option ℕ)
      → BillingReadInput
      → List BillingDimensionMapping
      → (period_key coverage_end : String) → Option Json
      → BillingReadResult
  unfolding observe_rows
  interpret_usage fraction i mappings period_key coverage_end (some (arr vs)) = elim mappings [
    | [] ↦ deny incomplete "no mapping"
    | e ∷ es ↦
        elim (observe_rows fraction (e ∷ es) i.fetched_at period_key coverage_end (items vs)) [
          | none ↦ deny incomplete "usage row"
          | some [] ↦ deny incomplete "empty usage array"
          | some (o ∷ os) ↦ accept period_key (o ∷ os)
        ]
  ]
  interpret_usage fraction i mappings period_key coverage_end _ = deny incomplete "no usage array"

  -- the coverage, the account and the currency
  unfoldable pub interpret_cycle :
      (fraction : String → ℕ → Option ℕ)
      → BillingReadInput
      → List BillingDimensionMapping
      → List (String × Json)
      → (period_key : String) → BillingReadResult
  unfolding interpret_usage iso_or_null
  interpret_cycle fraction i mappings m period_key =
      if not i.pagination_complete
      then deny incomplete "pagination"
      else elim (iso_or_null (present i.coverage_end)) [
        | none ↦ deny incomplete "coverage end"
        | some coverage_end ↦ elim (lag_of i.now coverage_end) [
          | none ↦ deny incomplete "coverage end is not in the past"
          | some lag ↦
              if ltb i.max_age_ms lag
              then deny stale "lag"
              else elim (dates.date_parse i.fetched_at) [
                | none ↦ deny incomplete "fetch time"
                | some fetched ↦
                    if str_eq (account_of m) "" || not (str_eq (account_of m) i.account_id)
                    then deny incomplete "account identity"
                    else if not (currency_ok (get "currency" m))
                    then deny incomplete "currency"
                    else interpret_usage fraction i mappings period_key coverage_end
                        (or_else (get "usage" m) (get "total_usage" m))
              ]
        ]
      ]

  -- the window of the billing cycle
  unfoldable pub interpret_result :
      (fraction : String → ℕ → Option ℕ)
      → BillingReadInput
      → List BillingDimensionMapping
      → List (String × Json)
      → BillingReadResult
  unfolding interpret_cycle iso_or_null window_matches
  interpret_result fraction i mappings m =
      elim (iso_or_null (or_else (get "billing_cycle_start" m) (get "period_start" m))) [
        | none ↦ deny incomplete "cycle window"
        | some start ↦
            elim (iso_or_null (or_else (get "billing_cycle_end" m) (get "period_end" m))) [
              | none ↦ deny incomplete "cycle window"
              | some end ↦ elim (window_matches start end i.expected_period) [
                | none ↦ throws
                | some false ↦ deny incomplete "anchor"
                | some true ↦ interpret_cycle fraction i mappings m ("cycle:" ⧺ start ⧺ ".." ⧺ end)
              ]
            ]
      ]

  -- the parsed body
  unfoldable pub interpret_body :
      (fraction : String → ℕ → Option ℕ)
      → BillingReadInput
      → List BillingDimensionMapping
      → Json
      → BillingReadResult
  unfolding interpret_result
  interpret_body fraction i mappings (obj fs) =
      if not (is_true (get "success" (fields fs)))
      then deny denied "success=false"
      else elim (result_of (get "result" (fields fs))) [
        | none ↦ deny incomplete "no result object"
        | some m ↦ interpret_result fraction i mappings m
      ]
  interpret_body fraction i mappings _ = deny incomplete "no JSON object"

  -- `interpretBillableUsage`; the reasons are shortened
  unfoldable pub interpret_billable_usage :
      (fraction : String → ℕ → Option ℕ)
      → BillingReadInput
      → List BillingDimensionMapping
      → BillingReadResult
  unfolding interpret_body
  interpret_billable_usage fraction i mappings =
      if i.http_status == 401 || i.http_status == 403
      then deny denied "denied"
      else if i.http_status == 0 || i.http_status == 429 || leb 500 i.http_status
      then deny incomplete "unavailable"
      else if not (i.http_status == 200)
      then deny incomplete "status"
      else interpret_body fraction i mappings i.body

-- `isDimensionCoveredByMappings`
unfoldable pub is_dimension_covered_by_mappings : String → Bool
is_dimension_covered_by_mappings key =
    any (λ e. str_eq (BillingDimensionMapping.dimension_key e) key) billing_dimension_mappings

-- `storageAdmissionUnits` of a whole number of bytes
unfoldable pub storage_admission_units : ℕ → ℕ
storage_admission_units bytes = (bytes * storage_unit_scale + 999_999_999) / 1_000_000_000
