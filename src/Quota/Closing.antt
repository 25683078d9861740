-- ===== src/Quota/Closing.antt =====
-- `quotaStatus` of `src/quota-admission.ts`: what closes a dimension.
use quantpro_collector.Prelude.{
  ℕ, ◌+◌, ◌≡◌, Bool, true, false, ◌&&◌, Option, none, some, String, str_eq, eq_iff, ltb, leb, arith,
  if◌then◌else◌,
}
use quantpro_collector.Db.Table.{lookup, insert, lookup-insert}
use quantpro_collector.Quota.Dimensions.{Dates}
use quantpro_collector.Quota.Admission.{
  BaselineRow, Answers, DimensionStatus, DimensionState, closed, under, committed, breached,
  resolved_status, dimension_status, QuotaTables, record_baseline,
}

abbrev pub amount : Option ℕ → ℕ
amount none = 0
amount (some n) = n

abbrev pub is_closed : DimensionState → Bool
is_closed closed = true
is_closed _ = false

-- the usage that a status shows
abbrev pub shown : DimensionStatus → ℕ
shown s = amount s.used + amount s.unobserved_upper_bound + amount s.booked

-- Whatever the reads answer and whichever fail, a dimension is reported closed exactly if its
-- period is known and the usage that the report shows has reached a positive threshold. So a
-- missing baseline, a failed read or an unverified account never closes a dimension by itself.
pub dimension_status-closed :
    (q : Answers) (dates : Dates) (now : Option ℕ) (key : String)
    → let s = dimension_status q dates now key in
      is_closed s.state ≡ elim s.period_key [
        | none ↦ false
        | some p ↦ ltb 0 (amount s.threshold_95) && leb (amount s.threshold_95) (shown s)
      ]
unfolding dimension_status resolved_status committed breached
dimension_status-closed q dates now key = ground arith

-- the baselines of the tables
unfoldable pub select_baseline : String → String → QuotaTables → Option BaselineRow
select_baseline dimension period t = lookup period (under dimension t.baselines)

-- Recording a baseline replaces the one of its dimension and period, and no other.
pub record_baseline-lookup :
    (dimension period dimension' period' : String) (row : BaselineRow) (t : QuotaTables)
    → select_baseline dimension' period' (record_baseline dimension period row t) ≡ (
        if str_eq dimension dimension' && str_eq period period'
        then some row
        else select_baseline dimension' period' t)
unfolding select_baseline record_baseline
record_baseline-lookup dimension period dimension' period' row t = ground (
  arith,
  eq_iff dimension dimension',
  eq_iff period period',
  lookup-insert dimension dimension' (insert period row (under dimension t.baselines)) t.baselines,
  lookup-insert period period' row (under dimension t.baselines),
)
