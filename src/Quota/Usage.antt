-- ===== src/Quota/Usage.antt =====
-- `src/quota-metering.ts` and the observer of `src/quota-resource-adapters.ts`: sums, and the gate.
use quantpro_collector.Prelude.{
  All, map, filter, any, ℕ, ◌+◌, ◌≡◌, refl, Bool, true, false, not, ◌&&◌, Option, none, some, List,
  [], ◌∷◌, String, str_eq, eq_iff, arith, any, filter, map, if◌then◌else◌,
}
use quantpro_collector.Quota.Metering.{
  merge_usage, StoredCircuit, CircuitRow, circuit_row, semantic_search_circuit_dimensions,
  read_circuit_states, semantic_search_circuit_refusal, ObservedDimension, record_units,
  sum_dimension, UsageRow, ClientUsageInput, usage_row, upsert_usage, record_client_usage,
  StoredCircuit, CircuitRow, circuit_row, semantic_search_circuit_dimensions, read_circuit_states,
  semantic_search_circuit_refusal,
}

-- An observer's total under a key is the sum of what was recorded under it.
pub sum_dimension-record_units :
    (key key' : String) (n : ℕ) (es : List ObservedDimension)
    → sum_dimension (record_units key n es) key'
      ≡ sum_dimension es key' + (if str_eq key key' then n else 0)
unfolding sum_dimension record_units
sum_dimension-record_units key key' n [] = ground (arith, eq_iff key key')
sum_dimension-record_units key key' n (e ∷ es) = ground (
  arith,
  eq_iff key key',
  eq_iff e.dimension_key key,
  eq_iff e.dimension_key key',
  sum_dimension-record_units key key' n es,
)

abbrev pub at_key : (hour client route : String) → UsageRow → Bool
at_key hour client route r =
    str_eq r.period_hour hour && (str_eq r.client_id client && str_eq r.route route)

-- a counter summed over the rows of one hour, client and route
unfoldable pub counted : (UsageRow → ℕ) → (hour client route : String) → List UsageRow → ℕ
counted field hour client route [] = 0
counted field hour client route (r ∷ rs) =
    if at_key hour client route r
    then field r + counted field hour client route rs
    else counted field hour client route rs

upsert_usage-counted :
    (f : UsageRow → ℕ) (row : UsageRow) (hour client route : String)
    → ((r : UsageRow) → f (merge_usage r row) ≡ f r + f row)
    → (rows : List UsageRow)
    → counted f hour client route (upsert_usage row rows)
      ≡ counted f hour client route rows + (if at_key hour client route row then f row else 0)
unfolding upsert_usage counted
upsert_usage-counted f row hour client route m [] = ground arith
upsert_usage-counted f row hour client route m (r ∷ rs) = ground (
  arith,
  m r,
  eq_iff r.period_hour row.period_hour,
  eq_iff r.client_id row.client_id,
  eq_iff r.route row.route,
  upsert_usage-counted f row hour client route m rs,
)

-- the counters that a call adds to
abbrev pub counters : List (UsageRow → ℕ)
counters =
    UsageRow.call_count ∷ UsageRow.d1_rows_read ∷ UsageRow.d1_rows_written ∷ UsageRow.ai_neurons
    ∷ UsageRow.vectorize_queries ∷ []

-- Every counter, summed over the rows of one hour, client and route, grows by what the call
-- contributes, if it was a call of that hour, client and route, and not at all otherwise: hours,
-- clients and routes never mix.
pub record_client_usage-counted :
    (i : ClientUsageInput) (hour client route : String) (rows : List UsageRow)
    → All
        (λ f.
          counted f hour client route (record_client_usage i rows)
          ≡ counted f hour client route rows
            + (if at_key hour client route (usage_row i) then f (usage_row i) else 0))
        counters
unfolding record_client_usage usage_row
record_client_usage-counted i hour client route rows =
    let added =
      λ (f : UsageRow → ℕ)
          (m : (r : UsageRow) → f (merge_usage r (usage_row i)) ≡ f r + f (usage_row i)).
        upsert_usage-counted f (usage_row i) hour client route m rows in
    (
      added UsageRow.call_count (λ r. refl),
      (
        added UsageRow.d1_rows_read (λ r. refl),
        (
          added UsageRow.d1_rows_written (λ r. refl),
          (
            added UsageRow.ai_neurons (λ r. refl),
            (added UsageRow.vectorize_queries (λ r. refl), tt),
          ),
        ),
      ),
    )

abbrev pub guarded : StoredCircuit → Bool
guarded r = any (λ k. str_eq k r.dimension_key) semantic_search_circuit_dimensions

abbrev pub is_none {ℓ} : {A : Type ℓ} → Option A → Bool
is_none none = true
is_none (some a) = false

abbrev empty {ℓ} : {A : Type ℓ} → List A → Bool
empty [] = true
empty (x ∷ xs) = false

open_rows-empty :
    (rs : List StoredCircuit)
    → empty (filter CircuitRow.is_open (map circuit_row (filter guarded rs)))
      ≡ not (any (λ r. guarded r && str_eq r.state "OPEN") rs)
open_rows-empty [] = refl
open_rows-empty (r ∷ rs) = ground (arith, open_rows-empty rs)

-- The gate allows exactly if it cannot read its table, or no guarded dimension is OPEN there.
pub semantic_search_circuit_refusal-open :
    (rows : Option (List StoredCircuit))
    → is_none (semantic_search_circuit_refusal rows)
      ≡ elim rows [ none ↦ true | some rs ↦ not (any (λ r. guarded r && str_eq r.state "OPEN") rs) ]
unfolding semantic_search_circuit_refusal read_circuit_states
semantic_search_circuit_refusal-open none = refl
semantic_search_circuit_refusal-open (some rs) = ground (arith, open_rows-empty rs)
