-- ===== src/Quota/Admission.antt =====
-- `src/quota-admission.ts`: the operator's records, and the status that is read off them.
use quantpro_collector.Prelude.{
  ℕ, ◌+◌, Bool, true, false, ◌&&◌, Option, none, some, List, [], ◌∷◌, String, ltb, leb,
  if◌then◌else◌, map,
}
use quantpro_collector.Db.Table.{Table, lookup, insert}
use quantpro_collector.Quota.Dimensions.{
  DimensionSpec, AccountPeriodAnchor, Dates, ResolvedPeriod, dimension_spec, resolve_period,
}

pub data BaselineState : Type 0 where
  verified unverified stale denied incomplete : BaselineState

pub record BaselineRow : Type 0 where
  pub state : BaselineState
  pub used : ℕ
  pub unobserved_upper_bound : ℕ
  pub source : String
  pub source_version : String
  pub as_of : String
  pub coverage_end : Option String
  pub recorded_at : String

pub record CatalogRow : Type 0 where
  pub unit : String
  pub period_kind : String
  pub included : Option ℕ
  pub threshold_95 : Option ℕ
  pub provable : Bool
  pub catalog_version : String
  pub recorded_at : String

pub record PeriodRow : Type 0 where
  pub anchor : AccountPeriodAnchor
  pub recorded_at : String

-- The tables: those with the key (dimension, period) have a table of periods under a dimension.
pub record QuotaTables : Type 0 where
  pub periods : Table PeriodRow
  pub baselines : Table (Table BaselineRow)
  pub catalog : Table CatalogRow

-- `recordAccountPeriod`; `now` is the printed time
unfoldable pub record_account_period : AccountPeriodAnchor → String → QuotaTables → QuotaTables
record_account_period anchor now t = record t {
  periods =
      insert (AccountPeriodAnchor.account_id anchor) (record { anchor = anchor; recorded_at = now })
        t.periods;
}

abbrev pub under {ℓ} : {V : Type ℓ} → String → Table (Table V) → Table V
under k t = elim (lookup k t) [ none ↦ [] | some m ↦ m ]

-- `recordBaseline`
unfoldable pub record_baseline :
    (dimension period : String) → BaselineRow → QuotaTables → QuotaTables
record_baseline dimension period row t = record t {
  baselines = insert dimension (insert period row (under dimension t.baselines)) t.baselines;
}

-- the dimensions that are copied into the database
pub record CatalogEntry : Type 0 where
  pub key : String
  pub row : CatalogRow

-- `syncDimensionCatalog`: one batch of upserts
unfoldable pub sync_dimension_catalog : List CatalogEntry → QuotaTables → QuotaTables
sync_dimension_catalog [] t = t
sync_dimension_catalog (e ∷ es) t =
    sync_dimension_catalog es (record t { catalog = insert e.key e.row t.catalog })

-- What the SELECTs of `quotaStatus` answer, `none` where one fails: each is made on its own, and
-- no other statement comes between.
pub record Answers : Type 0 where
  pub anchor : Option (Option AccountPeriodAnchor)
  pub live : Option ℕ
  pub baseline : (dimension period : String) → Option (Option BaselineRow)
  pub reserved : (dimension period : String) → Option ℕ
  pub booked : (dimension period : String) → Option (Option ℕ)

pub data DimensionState : Type 0 where
  open_ closed unknown : DimensionState

pub data StatusReason : Type 0 where
  not_in_catalog anchor_not_verified threshold_reached : StatusReason
  baseline_state : BaselineState → StatusReason
  no_baseline : StatusReason

pub record DimensionStatus : Type 0 where
  pub dimension_key : String
  pub state : DimensionState
  pub period_key : Option String
  pub used : Option ℕ
  pub unobserved_upper_bound : Option ℕ
  pub reserved : Option ℕ
  pub booked : Option ℕ
  pub threshold_95 : Option ℕ
  pub reason : StatusReason

-- `.catch(() => null)`
abbrev pub caught : {A : Type 0} → Option (Option A) → Option A
caught none = none
caught (some o) = o

abbrev or_zero : Option ℕ → ℕ
or_zero none = 0
or_zero (some n) = n

abbrev used_of : Option BaselineRow → Option ℕ
used_of none = none
used_of (some r) = some r.used

abbrev bound_of : Option BaselineRow → Option ℕ
bound_of none = none
bound_of (some r) = some r.unobserved_upper_bound

-- `Number(row?.used ?? 0) + Number(row?.unobserved_upper_bound ?? 0) + Number(booked ?? 0)`
unfoldable pub committed : Option BaselineRow → Option ℕ → ℕ
committed row booked = or_zero (used_of row) + or_zero (bound_of row) + or_zero booked

-- `Number.isFinite(threshold) && threshold > 0 && committed >= threshold`; `Number(null)` is 0
unfoldable pub breached : Option ℕ → ℕ → Bool
breached none used = false
breached (some threshold) used = ltb 0 threshold && leb threshold used

abbrev reason_of : Bool → Option BaselineRow → StatusReason
reason_of true row = threshold_reached
reason_of false none = no_baseline
reason_of false (some r) = baseline_state r.state

unfoldable pub resolved_status : Answers → DimensionSpec → String → ResolvedPeriod → DimensionStatus
unfolding committed breached
resolved_status q specification key period =
    let p = ResolvedPeriod.period_key period in
    let row = caught (q.baseline key p) in
    let booked = caught (q.booked key p) in
    let over = breached (DimensionSpec.threshold_95 specification) (committed row booked) in
    record {
      dimension_key = key;
      state = if over then closed else open_;
      period_key = some p;
      used = used_of row;
      unobserved_upper_bound = bound_of row;
      reserved = q.reserved key p;
      booked = booked;
      threshold_95 = DimensionSpec.threshold_95 specification;
      reason = reason_of over row;
    }

abbrev unknown_status : String → Option ℕ → StatusReason → DimensionStatus
unknown_status key threshold reason = record {
  dimension_key = key;
  state = unknown;
  period_key = none;
  used = none;
  unobserved_upper_bound = none;
  reserved = none;
  booked = none;
  threshold_95 = threshold;
  reason = reason;
}

-- one round of the loop
unfoldable pub dimension_status : Answers → Dates → Option ℕ → String → DimensionStatus
unfolding resolved_status
dimension_status q dates now key = elim (dimension_spec key) [
  | none ↦ unknown_status key none not_in_catalog
  | some specification ↦ elim (resolve_period dates specification (caught q.anchor) now) [
    | none ↦ unknown_status key specification.threshold_95 anchor_not_verified
    | some period ↦ resolved_status q specification key period
  ]
]

pub record QuotaStatus : Type 0 where
  pub account_id : String
  pub period : Option (String × String)
  pub anchor_verified : Bool
  pub live_reservations : ℕ
  pub dimensions : List DimensionStatus

abbrev period_of : Option AccountPeriodAnchor → Option (String × String)
period_of none = none
period_of (some a) = some (a.period_start, a.period_end)

abbrev has_period : Dates → Option AccountPeriodAnchor → Option ℕ → Option DimensionSpec → Bool
has_period dates anchor now none = false
has_period dates anchor now (some specification) =
    elim (resolve_period dates specification anchor now) [ none ↦ false | some p ↦ true ]

-- `quotaStatus` for the dimensions with the given keys
unfoldable pub quota_status : Answers → Dates → Option ℕ → String → List String → QuotaStatus
unfolding dimension_status
quota_status q dates now account keys = record {
  account_id = account;
  period = period_of (caught q.anchor);
  anchor_verified = has_period dates (caught q.anchor) now (dimension_spec "d1.rows_read");
  live_reservations = or_zero q.live;
  dimensions = map (dimension_status q dates now) keys;
}
