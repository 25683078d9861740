-- ===== src/Portfolio/Delta.antt =====
-- `src/portfolio-delta.ts`: the baseline and the delta, the reducer, and the two KV keys.
pub mod Canonical
pub mod Valid
pub mod Exact
pub mod Reduce
use quantpro_collector.Prelude.{
  ℕ, Bool, true, false, not, Option, none, some, List, [], ◌∷◌, String, str_eq, ltb, ◌==◌, filter,
  if◌then◌else◌, ◌&&◌, ◌||◌,
}
use quantpro_collector.Json.{
  Json, bool, str, arr, obj, Items, fields, items, get, exact_keys, nil, field, cons, end,
}
use quantpro_collector.Portfolio.Codes.{
  Clock, PortfolioDeltaState, live_complete, lkg_valid, portfolio_unknown, assert_hash,
  assert_timestamp, assert_state, assert_canonical_codes, canonical_portfolio_codes, no_overlap,
  contains,
}

abbrev pub portfolio_universe_baseline_schema : String
portfolio_universe_baseline_schema = "portfolio_universe_complete_baseline_v1"

abbrev delta_keys : List String
delta_keys =
    "previous_complete_hash" ∷ "current_complete_hash" ∷ "added_codes" ∷ "removed_codes"
    ∷ "observed_at" ∷ []

abbrev baseline_keys : List String
baseline_keys =
    "schema_version" ∷ "current_complete_hash" ∷ "codes" ∷ "observed_at" ∷ "eligible" ∷ "last_state"
    ∷ "last_observed_hash" ∷ "last_observed_at" ∷ []

-- a timestamp: its text and its instant
abbrev pub Timestamp : Type 0
Timestamp = String × ℕ

pub record Observation : Type 0 where
  pub state : PortfolioDeltaState
  pub current_complete_hash : String
  pub active_codes : List String
  pub observed_at : Timestamp

-- `PortfolioCompleteBaseline`, less its schema label
pub record Baseline : Type 0 where
  pub current_complete_hash : String
  pub codes : List String
  pub observed_at : Timestamp
  pub eligible : Bool
  pub last_state : PortfolioDeltaState
  pub last_observed_hash : String
  pub last_observed_at : Timestamp

pub record Delta : Type 0 where
  pub previous_complete_hash : String
  pub current_complete_hash : String
  pub added_codes : List String
  pub removed_codes : List String
  pub observed_at : Timestamp

abbrev pub is_complete : PortfolioDeltaState → Bool
is_complete live_complete = true
is_complete _ = false

abbrev pub same_state : PortfolioDeltaState → PortfolioDeltaState → Bool
same_state live_complete live_complete = true
same_state lkg_valid lkg_valid = true
same_state portfolio_unknown portfolio_unknown = true
same_state _ _ = false

abbrev pub same_bool : Bool → Bool → Bool
same_bool true b = b
same_bool false b = not b

abbrev pub is_array : Option Json → Option Items
is_array (some (arr vs)) = some vs
is_array _ = none

abbrev bool_of : Option Json → Option Bool
bool_of (some (bool b)) = some b
bool_of _ = none

abbrev is_text : String → Option Json → Bool
is_text s (some (str t)) = str_eq t s
is_text s _ = false

infixl 5 ◌>>=◌
abbrev ◌>>=◌ : {A B : Type 0} → Option A → (A → Option B) → Option B
none >>= f = none
some a >>= f = f a

abbrev guard : Bool → Option (Unit {0})
guard true = some tt
guard false = none

-- `eligible=false` breaks continuity after an observation that is not complete.
unfoldable pub broken_baseline : Observation → Baseline → Baseline
broken_baseline o b = record b {
  eligible = false;
  last_state = o.state;
  last_observed_hash = o.current_complete_hash;
  last_observed_at = o.observed_at;
}

unfoldable pub next_baseline : Observation → Baseline
next_baseline o = record {
  current_complete_hash = o.current_complete_hash;
  codes = o.active_codes;
  observed_at = o.observed_at;
  eligible = true;
  last_state = live_complete;
  last_observed_hash = o.current_complete_hash;
  last_observed_at = o.observed_at;
}

unfoldable pub same_timestamp_conflict : Observation → Baseline → Bool
same_timestamp_conflict o b =
    o.observed_at.1 == b.last_observed_at.1
    && (not (same_state o.state b.last_state)
        || not (str_eq o.current_complete_hash b.last_observed_hash))

-- the codes of one list that the other does not have
unfoldable pub codes_outside : List String → List String → List String
codes_outside known cs = filter (λ c. not (contains known c)) cs

abbrev pub text_items : List String → Items
text_items [] = nil
text_items (c ∷ cs) = cons (str c) (text_items cs)

-- the object that the reducer has validated
unfoldable pub delta_json : Baseline → Observation → Json
unfolding codes_outside
delta_json b o = obj (
    field "previous_complete_hash" (str b.current_complete_hash) (
      field "current_complete_hash" (str o.current_complete_hash) (
        field "added_codes" (arr (text_items (codes_outside b.codes o.active_codes))) (
          field "removed_codes" (arr (text_items (codes_outside o.active_codes b.codes)))
            (field "observed_at" (str o.observed_at.0) end)))))

abbrev pub Reduction : Type 0
Reduction = Option Baseline × Option Delta

unfoldable pub reduce_first : Observation → Reduction
unfolding next_baseline
reduce_first o = if is_complete o.state then (some (next_baseline o), none) else (none, none)

module _ (clock : Clock) (print : Json → String) where
  -- `validateObservation`
  unfoldable pub validate_observation : Json → Option Observation
  validate_observation (obj fs) = do
    let m = fields fs
    state ← assert_state (get "state" m)
    hash ← assert_hash (get "current_complete_hash" m)
    observed_at ← assert_timestamp clock (get "observed_at" m)
    values ← is_array (get "active_codes" m)
    active_codes ← canonical_portfolio_codes print (items values)
    some (record {
      state = state;
      current_complete_hash = hash;
      active_codes = active_codes;
      observed_at = observed_at;
    })
  validate_observation _ = none

  -- `validatePortfolioCompleteBaseline`
  unfoldable pub validate_portfolio_complete_baseline : Json → Option Baseline
  validate_portfolio_complete_baseline (obj fs) = do
    let m = fields fs
    _ ← guard (exact_keys m baseline_keys)
    _ ← guard (is_text portfolio_universe_baseline_schema (get "schema_version" m))
    current_hash ← assert_hash (get "current_complete_hash" m)
    codes ← assert_canonical_codes print (get "codes" m)
    observed_at ← assert_timestamp clock (get "observed_at" m)
    eligible ← bool_of (get "eligible" m)
    last_state ← assert_state (get "last_state" m)
    last_hash ← assert_hash (get "last_observed_hash" m)
    last_at ← assert_timestamp clock (get "last_observed_at" m)
    _ ← guard (same_bool eligible (is_complete last_state))
    _ ← guard (not (ltb last_at.1 observed_at.1))
    some (record {
      current_complete_hash = current_hash;
      codes = codes;
      observed_at = observed_at;
      eligible = eligible;
      last_state = last_state;
      last_observed_hash = last_hash;
      last_observed_at = last_at;
    })
  validate_portfolio_complete_baseline _ = none

  -- `validatePortfolioUniverseDelta`
  unfoldable pub validate_portfolio_universe_delta : Json → Option Delta
  validate_portfolio_universe_delta (obj fs) = do
    let m = fields fs
    _ ← guard (exact_keys m delta_keys)
    previous_hash ← assert_hash (get "previous_complete_hash" m)
    current_hash ← assert_hash (get "current_complete_hash" m)
    _ ← guard (not (str_eq previous_hash current_hash))
    added_codes ← assert_canonical_codes print (get "added_codes" m)
    removed_codes ← assert_canonical_codes print (get "removed_codes" m)
    _ ← guard (no_overlap added_codes removed_codes)
    observed_at ← assert_timestamp clock (get "observed_at" m)
    some (record {
      previous_complete_hash = previous_hash;
      current_complete_hash = current_hash;
      added_codes = added_codes;
      removed_codes = removed_codes;
      observed_at = observed_at;
    })
  validate_portfolio_universe_delta _ = none

  -- `reducePortfolioUniverseDelta` on validated arguments
  unfoldable pub reduce_from : Baseline → Observation → Option Reduction
  unfolding broken_baseline next_baseline same_timestamp_conflict delta_json
  reduce_from b o =
      if ltb o.observed_at.1 b.last_observed_at.1
      then some (some b, none)
      else if not (is_complete o.state)
      then some (some (broken_baseline o b), none)
      else if not b.eligible || same_timestamp_conflict o b
      then some (some (next_baseline o), none)
      else if str_eq b.current_complete_hash o.current_complete_hash
      then some (some (next_baseline o), none)
      else elim (validate_portfolio_universe_delta (delta_json b o)) [
        | none ↦ none
        | some d ↦ some (some (next_baseline o), some d)
      ]

  -- `reducePortfolioUniverseDelta`
  unfoldable pub reduce_portfolio_universe_delta : Option Json → Json → Option Reduction
  reduce_portfolio_universe_delta none current = elim (validate_observation current) [
    | none ↦ none
    | some o ↦ some (reduce_first o)
  ]
  reduce_portfolio_universe_delta (some previous) current = elim (validate_observation current) [
    | none ↦ none
    | some o ↦ elim (validate_portfolio_complete_baseline previous) [
      | none ↦ none
      | some b ↦ reduce_from b o
    ]
  ]
