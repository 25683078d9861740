-- ===== src/Portfolio/Store.antt =====
-- The KV namespace of portfolio-delta.ts: its two keys, and the recording of an observation.
pub mod Retry
use quantpro_collector.Prelude.{Option, none, some, String}
use quantpro_collector.Json.{Json, bool, str, arr, obj, field, end}
use quantpro_collector.Db.Prog.{
  Prog, done, fail, invalid_value, select, exec, case_option, ◌>>=◌, ◌>>◌,
}
use quantpro_collector.Portfolio.Codes.{
  Clock, PortfolioDeltaState, live_complete, lkg_valid, portfolio_unknown,
}
use quantpro_collector.Portfolio.Delta.{
  Baseline, Delta, text_items, portfolio_universe_baseline_schema,
  validate_portfolio_complete_baseline, validate_portfolio_universe_delta,
  reduce_portfolio_universe_delta,
}

-- the texts under the keys of the baseline and of the latest delta
pub record Kv : Type 0 where
  pub baseline : Option String
  pub delta : Option String

-- what the platform does: `Date.parse`, `trim`, template literals, `JSON.parse`, `JSON.stringify`
pub record Platform : Type 0 where
  pub clock : Clock
  pub print : Json → String
  pub parse : String → Option Json
  pub stringify : Json → String

abbrev pub state_text : PortfolioDeltaState → String
state_text live_complete = "LIVE_COMPLETE"
state_text lkg_valid = "LKG_VALID"
state_text portfolio_unknown = "PORTFOLIO_UNKNOWN"

-- the object that stands for a validated baseline or delta
unfoldable pub baseline_json : Baseline → Json
baseline_json b = obj (
    field "schema_version" (str portfolio_universe_baseline_schema) (
      field "current_complete_hash" (str b.current_complete_hash) (
        field "codes" (arr (text_items b.codes)) (
          field "observed_at" (str b.observed_at.0) (
            field "eligible" (bool b.eligible) (
              field "last_state" (str (state_text b.last_state)) (
                field "last_observed_hash" (str b.last_observed_hash)
                  (field "last_observed_at" (str b.last_observed_at.0) end))))))))

unfoldable pub portfolio_delta_json : Delta → Json
portfolio_delta_json d = obj (
    field "previous_complete_hash" (str d.previous_complete_hash) (
      field "current_complete_hash" (str d.current_complete_hash) (
        field "added_codes" (arr (text_items d.added_codes)) (
          field "removed_codes" (arr (text_items d.removed_codes))
            (field "observed_at" (str d.observed_at.0) end)))))

module _ (pf : Platform) where
  -- `readJson`: a missing value, a parsed one, or an error
  abbrev pub parse_json : Option String → Prog Kv (Option Json)
  parse_json raw =
      case_option raw (done none)
        λ text. case_option (pf.parse text) (fail invalid_value) λ v. done (some v)

  unfoldable pub read_json : (Kv → Option String) → Prog Kv (Option Json)
  read_json key = select key >>= parse_json

  -- `parsed === null ? null : validate(parsed)`
  abbrev pub to_baseline : Option Json → Prog Kv (Option Baseline)
  to_baseline parsed = case_option parsed (done none) λ v.
      case_option (validate_portfolio_complete_baseline pf.clock pf.print v) (fail invalid_value)
        λ b. done (some b)

  unfoldable pub read_portfolio_complete_baseline : Prog Kv (Option Baseline)
  read_portfolio_complete_baseline = read_json Kv.baseline >>= to_baseline

  abbrev pub to_delta : Option Json → Prog Kv (Option Delta)
  to_delta parsed = case_option parsed (done none) λ v.
      case_option (validate_portfolio_universe_delta pf.clock pf.print v) (fail invalid_value)
        λ d. done (some d)

  unfoldable pub read_portfolio_universe_delta : Prog Kv (Option Delta)
  read_portfolio_universe_delta = read_json Kv.delta >>= to_delta

  unfoldable pub put_baseline : Baseline → Kv → Kv
  put_baseline b s = record s { baseline = some (pf.stringify (baseline_json b)) }

  unfoldable pub put_delta : Delta → Kv → Kv
  put_delta d s = record s { delta = some (pf.stringify (portfolio_delta_json d)) }

  unfoldable pub write_portfolio_complete_baseline : Json → Prog Kv Baseline
  write_portfolio_complete_baseline v =
      case_option (validate_portfolio_complete_baseline pf.clock pf.print v) (fail invalid_value)
        λ b. exec (put_baseline b) >> done b

  unfoldable pub write_portfolio_universe_delta : Json → Prog Kv Delta
  write_portfolio_universe_delta v =
      case_option (validate_portfolio_universe_delta pf.clock pf.print v) (fail invalid_value)
        λ d. exec (put_delta d) >> done d

  -- the writes of a reduction: the event before the baseline
  unfoldable pub write_reduction : Option Baseline × Option Delta → Prog Kv (Option Delta)
  write_reduction (baseline, delta) = do
    _ ←
        case_option delta (done tt)
          λ d. write_portfolio_universe_delta (portfolio_delta_json d) >> done tt
    _ ←
        case_option baseline (done tt)
          λ b. write_portfolio_complete_baseline (baseline_json b) >> done tt
    done delta

  abbrev pub baseline_value : Option Baseline → Option Json
  baseline_value none = none
  baseline_value (some b) = some (baseline_json b)

  -- `recordPortfolioUniverseObservation`
  unfoldable pub record_portfolio_universe_observation : Json → Prog Kv (Option Delta)
  record_portfolio_universe_observation observation = do
    previous ← read_portfolio_complete_baseline
    _ ← read_portfolio_universe_delta
    case_option
        (reduce_portfolio_universe_delta pf.clock pf.print (baseline_value previous) observation)
        (fail invalid_value) write_reduction
