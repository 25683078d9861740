-- ===== src/Portfolio/Tests.antt =====
-- Runs of `src/portfolio-delta.ts` on two small universes.
use quantpro_collector.Prelude.{
  ◌≡◌, refl, true, false, not, ◌&&◌, none, some, [], ◌∷◌, String, str_eq, if◌then◌else◌, ◌==◌,
}
use quantpro_collector.Json.{Json, str, arr, obj, field, end}
use quantpro_collector.Db.Prog.{ok, outage, alone, run}
use quantpro_collector.Portfolio.Codes.{
  Clock, live_complete, lkg_valid, contains, hash_pattern, code_pattern, assert_hash,
  assert_timestamp, assert_state, canonical_code, map_codes, distinct, codes_le, insert_code,
  sort_codes, canonical_portfolio_codes, assert_canonical_codes,
}
use quantpro_collector.Portfolio.Delta.{
  Observation, Baseline, Delta, text_items, broken_baseline, next_baseline, same_timestamp_conflict,
  reduce_from, validate_observation, validate_portfolio_complete_baseline,
  reduce_portfolio_universe_delta,
}
use quantpro_collector.Portfolio.Delta.Exact.{
  difference, reduction, reduce_portfolio_universe_delta-exact,
}
use quantpro_collector.Portfolio.Delta.Reduce.{reduce_from-gap}
use quantpro_collector.Portfolio.Store.{
  Kv, Platform, portfolio_delta_json, put_baseline, put_delta,
  record_portfolio_universe_observation,
}
use quantpro_collector.Portfolio.Store.Retry.{
  stored_baseline, stored_event, failing, record_portfolio_universe_observation-retry,
}

abbrev clock : Clock
clock = record {
  is_blank = λ s. false;
  date_parse = λ s. if str_eq s "monday" then some 1 else some 2;
}

abbrev hash_a : String
hash_a = "sha256:aaaaaaaaaaaaaaaaaaaaaaaaaaaaaaaaaaaaaaaaaaaaaaaaaaaaaaaaaaaaaaaa"

abbrev hash_b : String
hash_b = "sha256:bbbbbbbbbbbbbbbbbbbbbbbbbbbbbbbbbbbbbbbbbbbbbbbbbbbbbbbbbbbbbbbb"

abbrev monday : Baseline
monday = record {
  current_complete_hash = hash_a;
  codes = "CN:000001" ∷ "CN:600000" ∷ [];
  observed_at = ("monday", 1);
  eligible = true;
  last_state = live_complete;
  last_observed_hash = hash_a;
  last_observed_at = ("monday", 1);
}

abbrev tuesday : Observation
tuesday = record {
  state = live_complete;
  current_complete_hash = hash_b;
  active_codes = "CN:600000" ∷ "HK:00700" ∷ [];
  observed_at = ("tuesday", 2);
}

abbrev gap : Observation
gap = record {
  state = lkg_valid;
  current_complete_hash = hash_b;
  active_codes = [];
  observed_at = ("tuesday", 2);
}

abbrev monday_json : Json
monday_json = obj (
    field "schema_version" (str "portfolio_universe_complete_baseline_v1") (
      field "current_complete_hash" (str hash_a) (
        field "codes" (arr (text_items ("CN:000001" ∷ "CN:600000" ∷ []))) (
          field "observed_at" (str "monday") (
            field "eligible" (Json.bool true) (
              field "last_state" (str "LIVE_COMPLETE") (
                field "last_observed_hash" (str hash_a)
                  (field "last_observed_at" (str "monday") end))))))))

-- the codes of the observation come unsorted
abbrev tuesday_json : Json
tuesday_json = obj (
    field "state" (str "LIVE_COMPLETE") (
      field "current_complete_hash" (str hash_b) (
        field "active_codes" (arr (text_items ("HK:00700" ∷ "CN:600000" ∷ [])))
          (field "observed_at" (str "tuesday") end))))

-- JSON with two printed texts
abbrev platform : Platform
platform = record {
  clock = clock;
  print = λ v. "value";
  parse = λ s.
      if str_eq s "monday"
      then some monday_json
      else some (portfolio_delta_json (difference monday tuesday));
  stringify = λ v. "printed";
}

abbrev kv : Kv
kv = record { baseline = some "monday"; delta = none }

monday-valid : validate_portfolio_complete_baseline clock (λ v. "value") monday_json ≡ some monday
unfolding validate_portfolio_complete_baseline assert_hash assert_timestamp assert_state
    assert_canonical_codes hash_pattern code_pattern canonical_code map_codes distinct sort_codes
    insert_code codes_le
monday-valid = refl

tuesday-valid : validate_observation clock (λ v. "value") tuesday_json ≡ some tuesday
unfolding validate_observation assert_hash assert_timestamp assert_state canonical_portfolio_codes
    hash_pattern code_pattern canonical_code map_codes distinct sort_codes insert_code codes_le
tuesday-valid = refl

event : reduction monday tuesday ≡ (some (next_baseline tuesday), some (difference monday tuesday))
unfolding reduction same_timestamp_conflict
event = refl

reduce_portfolio_universe_delta-exact_example :
    (reduce_portfolio_universe_delta clock (λ v. "value") (some monday_json) tuesday_json
      ≡ some (reduction monday tuesday))
    × ((c : String)
        → (contains (Delta.added_codes (difference monday tuesday)) c
            ≡ (contains tuesday.active_codes c && not (contains monday.codes c)))
          × (contains (Delta.removed_codes (difference monday tuesday)) c
              ≡ (contains monday.codes c && not (contains tuesday.active_codes c))))
reduce_portfolio_universe_delta-exact_example =
    reduce_portfolio_universe_delta-exact clock (λ v. "value") monday_json tuesday_json monday
      tuesday monday-valid tuesday-valid

reduce_from-gap_example :
    (reduce_from clock (λ v. "value") monday gap ≡ some (some (broken_baseline gap monday), none))
    × (((broken_baseline gap monday).codes ≡ monday.codes)
        × ((broken_baseline gap monday).current_complete_hash ≡ hash_a))
    × (reduce_from clock (λ v. "value") (broken_baseline gap monday) tuesday
        ≡ some (some (next_baseline tuesday), none))
unfolding broken_baseline
reduce_from-gap_example = reduce_from-gap clock (λ v. "value") monday gap tuesday refl refl

monday-stored : stored_baseline platform kv.baseline ≡ some (some monday)
unfolding stored_baseline validate_portfolio_complete_baseline assert_hash assert_timestamp
    assert_state assert_canonical_codes hash_pattern code_pattern canonical_code map_codes distinct
    sort_codes insert_code codes_le
monday-stored = refl

record_portfolio_universe_observation-retry_example :
    let call = record_portfolio_universe_observation platform tuesday_json in
    let kv' = put_delta platform (difference monday tuesday) kv in
    (run (failing (λ n. n == 3)) 0 call kv ≡ (outage, kv'))
    × (run alone 0 call kv' ≡ (
      ok (some (difference monday tuesday)),
      put_baseline platform (next_baseline tuesday) kv',
    ))
    × (run alone 0 call kv ≡ run alone 0 call kv')
unfolding stored_event
record_portfolio_universe_observation-retry_example =
    record_portfolio_universe_observation-retry platform kv tuesday_json monday tuesday none refl
      monday-stored refl tuesday-valid event
