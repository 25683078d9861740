-- ===== src/Quota/Metering.antt =====
-- `src/quota-metering.ts`: the hourly usage of the clients, and the circuit gate; and the
-- `UsageObserver` of `src/quota-resource-adapters.ts` with the rows that it observes. Units are
-- whole numbers of a fixed fraction: the code adds floating-point numbers without rounding.
use quantpro_collector.Prelude.{
  ℕ, ◌+◌, ◌*◌, ◌/◌, Bool, not, ◌&&◌, Option, none, some, List, [], ◌∷◌, String, str_eq, ltb, max,
  if◌then◌else◌, map, filter, any,
}
use quantpro_collector.Quota.Dimensions.{prefix, ◌⧺◌}

pub record ObservedDimension : Type 0 where
  pub dimension_key : String
  pub units : ℕ

-- `UsageObserver.record`: nothing is recorded of a number that is not positive, and a key keeps
-- the place of its first record.
unfoldable pub record_units : String → ℕ → List ObservedDimension → List ObservedDimension
record_units key n [] = if ltb 0 n then record { dimension_key = key; units = n } ∷ [] else []
record_units key n (e ∷ es) =
    if not (ltb 0 n)
    then e ∷ es
    else if str_eq e.dimension_key key
    then record { dimension_key = e.dimension_key; units = e.units + n } ∷ es
    else e ∷ record_units key n es

abbrev record_counter : String → Option ℕ → List ObservedDimension → List ObservedDimension
record_counter key none es = es
record_counter key (some n) es = record_units key n es

-- `recordMeta` of `createObservedD1`: each counter on its own, if it is a finite number
unfoldable pub record_meta : Option ℕ → Option ℕ → List ObservedDimension → List ObservedDimension
unfolding record_units
record_meta reads writes es =
    record_counter "d1.rows_written" writes (record_counter "d1.rows_read" reads es)

pub data R2Operation : Type 0 where
  put get head list delete : R2Operation

-- `R2_CLASS_BY_OPERATION`
unfoldable pub r2_class : R2Operation → Option String
r2_class put = some "r2.class_a"
r2_class get = some "r2.class_b"
r2_class head = some "r2.class_b"
r2_class list = some "r2.class_a"
r2_class delete = none

-- what an R2 call that returned records
unfoldable pub record_r2 : R2Operation → List ObservedDimension → List ObservedDimension
unfolding r2_class record_units
record_r2 operation es = elim (r2_class operation) [ none ↦ es | some key ↦ record_units key 1 es ]

-- `estimateEmbeddingNeurons` in millionths, from the number of UTF-16 units of the texts
unfoldable pub estimate_embedding_neurons : ℕ → ℕ
estimate_embedding_neurons chars = max 1 ((chars + 1) / 2) * 1075

-- `sumDimension`
unfoldable pub sum_dimension : List ObservedDimension → String → ℕ
sum_dimension [] key = 0
sum_dimension (e ∷ es) key =
    if str_eq e.dimension_key key then e.units + sum_dimension es key else sum_dimension es key

-- A row of `quota_client_usage_hourly`; vectorize_queries is counted in 1024ths.
pub record UsageRow : Type 0 where
  pub period_hour : String
  pub client_id : String
  pub route : String
  pub call_count : ℕ
  pub d1_rows_read : ℕ
  pub d1_rows_written : ℕ
  pub ai_neurons : ℕ
  pub vectorize_queries : ℕ
  pub created_at : String
  pub updated_at : String

pub record ClientUsageInput : Type 0 where
  pub route : String
  pub client_id : String
  pub observed : List ObservedDimension
  -- the printed time
  pub now : String

-- `quotaPeriodHour` of a printed time
unfoldable pub quota_period_hour : String → String
quota_period_hour now = prefix 13 now ⧺ ":00:00Z"

abbrev pub same_key : UsageRow → UsageRow → Bool
same_key a b =
    str_eq a.period_hour b.period_hour && (str_eq a.client_id b.client_id && str_eq a.route b.route)

unfoldable pub usage_row : ClientUsageInput → UsageRow
unfolding quota_period_hour
usage_row i = record {
  period_hour = quota_period_hour i.now;
  client_id = i.client_id;
  route = i.route;
  call_count = 1;
  d1_rows_read = sum_dimension i.observed "d1.rows_read";
  d1_rows_written = sum_dimension i.observed "d1.rows_written";
  ai_neurons = sum_dimension i.observed "ai.neurons";
  vectorize_queries = sum_dimension i.observed "vectorize.queried_dims";
  created_at = i.now;
  updated_at = i.now;
}

-- ON CONFLICT DO UPDATE
abbrev pub merge_usage : UsageRow → UsageRow → UsageRow
merge_usage old excluded = record old {
  call_count = old.call_count + 1;
  d1_rows_read = old.d1_rows_read + excluded.d1_rows_read;
  d1_rows_written = old.d1_rows_written + excluded.d1_rows_written;
  ai_neurons = old.ai_neurons + excluded.ai_neurons;
  vectorize_queries = old.vectorize_queries + excluded.vectorize_queries;
  updated_at = excluded.updated_at;
}

-- `UPSERT_USAGE_SQL`
unfoldable pub upsert_usage : UsageRow → List UsageRow → List UsageRow
upsert_usage row [] = row ∷ []
upsert_usage row (r ∷ rs) =
    if same_key r row then merge_usage r row ∷ rs else r ∷ upsert_usage row rs

-- `recordClientUsage`
unfoldable pub record_client_usage : ClientUsageInput → List UsageRow → List UsageRow
record_client_usage i rows = upsert_usage (usage_row i) rows

-- A row of `quota_circuit_state` as it is stored.
pub record StoredCircuit : Type 0 where
  pub dimension_key : String
  pub state : String
  pub current_usage : ℕ
  pub threshold_95 : ℕ
  pub as_of : String

pub record CircuitRow : Type 0 where
  pub dimension_key : String
  pub is_open : Bool
  pub current_usage : ℕ
  pub threshold_95 : ℕ
  pub as_of : String

-- `SEMANTIC_SEARCH_CIRCUIT_DIMENSIONS`
abbrev pub semantic_search_circuit_dimensions : List String
semantic_search_circuit_dimensions = "ai.neurons" ∷ "vectorize.queried_dims" ∷ []

abbrev pub circuit_row : StoredCircuit → CircuitRow
circuit_row r = record {
  dimension_key = r.dimension_key;
  is_open = str_eq r.state "OPEN";
  current_usage = r.current_usage;
  threshold_95 = r.threshold_95;
  as_of = r.as_of;
}

-- `readCircuitStates` of the rows of the table
unfoldable pub read_circuit_states : List StoredCircuit → List String → List CircuitRow
read_circuit_states rows keys =
    map circuit_row (filter (λ r. any (λ k. str_eq k r.dimension_key) keys) rows)

-- `semanticSearchCircuitRefusal`: the open dimensions of a refusal, `none` to allow. A missing
-- binding and a failed read, `none` here, allow.
unfoldable pub semantic_search_circuit_refusal :
    Option (List StoredCircuit) → Option (List CircuitRow)
unfolding read_circuit_states
semantic_search_circuit_refusal none = none
semantic_search_circuit_refusal (some rows) =
    elim (filter CircuitRow.is_open (read_circuit_states rows semantic_search_circuit_dimensions)) [
      | [] ↦ none
      | r ∷ rs ↦ some (r ∷ rs)
    ]
