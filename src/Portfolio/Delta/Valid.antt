-- ===== src/Portfolio/Delta/Valid.antt =====
-- What the validators of `src/portfolio-delta.ts` let through.
use quantpro_collector.Prelude.{
  ℕ, suc, ◌≡◌, refl, true, Option, none, some, List, [], ◌∷◌, String, eq_iff, arith, ltb,
  Option-cases, inl, inr, length,
}
use quantpro_collector.Json.{fields, get, Json, null, bool, num, other_num, obj, str, arr, items}
use quantpro_collector.Portfolio.Codes.{
  Clock, hash_pattern, assert_hash, assert_timestamp, map_codes, insert_code, sort_codes,
  same_codes, canonical_portfolio_codes, assert_canonical_codes,
}
use quantpro_collector.Portfolio.Delta.{
  Observation, Baseline, same_bool, is_complete, is_array, validate_observation,
  validate_portfolio_complete_baseline, false,
}
use quantpro_collector.Portfolio.Delta.Canonical.{
  if_some, canonical, canonical-sort_codes, map_codes-pattern, sorted-sort_codes,
}

length-insert_code : (c : String) (cs : List String) → length (insert_code c cs) ≡ suc (length cs)
unfolding insert_code
length-insert_code c [] = refl
length-insert_code c (d ∷ cs) = ground (arith, length-insert_code c cs)

length-sort_codes : (cs : List String) → length (sort_codes cs) ≡ length cs
unfolding sort_codes
length-sort_codes [] = refl
length-sort_codes (c ∷ cs) =
    ground (arith, length-insert_code c (sort_codes cs), length-sort_codes cs)

same_codes_eq : (cs ds : List String) → same_codes cs ds ≡ true → length cs ≡ length ds → cs ≡ ds
same_codes_eq [] [] h k = refl
same_codes_eq [] (d ∷ ds) h k = ground arith
same_codes_eq (c ∷ cs) [] h k = ground arith
same_codes_eq (c ∷ cs) (d ∷ ds) h k = ground (arith, eq_iff c d, same_codes_eq cs ds)

module _ (print : Json → String) where
  canonical_portfolio_codes-canonical :
      (vs : List Json) → if_some canonical (canonical_portfolio_codes print vs) ≡ true
  unfolding canonical_portfolio_codes
  canonical_portfolio_codes-canonical vs = elim (Option-cases (map_codes print vs)) [
    | inl e ↦ ground (arith, e)
    | inr (cs, e) ↦ ground (arith, e, map_codes-pattern print vs, canonical-sort_codes cs)
  ]

  assert_canonical_codes-canonical :
      (v : Option Json) → if_some canonical (assert_canonical_codes print v) ≡ true
  unfolding assert_canonical_codes canonical
  assert_canonical_codes-canonical none = refl
  assert_canonical_codes-canonical (some null) = refl
  assert_canonical_codes-canonical (some (bool b)) = refl
  assert_canonical_codes-canonical (some (num n)) = refl
  assert_canonical_codes-canonical (some (other_num n)) = refl
  assert_canonical_codes-canonical (some (str s)) = refl
  assert_canonical_codes-canonical (some (obj fs)) = refl
  assert_canonical_codes-canonical (some (arr vs)) =
      elim (Option-cases (map_codes print (items vs))) [
        | inl e ↦ ground (arith, e)
        | inr (cs, e) ↦ ground (
          arith,
          e,
          map_codes-pattern print (items vs),
          same_codes_eq (sort_codes cs) cs,
          length-sort_codes cs,
          sorted-sort_codes cs,
        )
      ]

assert_hash-pattern : (v : Option Json) → if_some hash_pattern (assert_hash v) ≡ true
unfolding assert_hash
assert_hash-pattern none = refl
assert_hash-pattern (some null) = refl
assert_hash-pattern (some (bool b)) = refl
assert_hash-pattern (some (num n)) = refl
assert_hash-pattern (some (other_num n)) = refl
assert_hash-pattern (some (str s)) = ground arith
assert_hash-pattern (some (arr vs)) = refl
assert_hash-pattern (some (obj fs)) = refl

-- a timestamp that the clock reads back
abbrev pub IsTimestamp : Clock → String × ℕ → Type 0
IsTimestamp clock t = assert_timestamp clock (some (str t.0)) ≡ some t

assert_timestamp-reads :
    (clock : Clock) (v : Option Json) (t : String × ℕ)
    → assert_timestamp clock v ≡ some t
    → IsTimestamp clock t
unfolding assert_timestamp
assert_timestamp-reads clock none t h = ground arith
assert_timestamp-reads clock (some null) t h = ground arith
assert_timestamp-reads clock (some (bool b)) t h = ground arith
assert_timestamp-reads clock (some (num n)) t h = ground arith
assert_timestamp-reads clock (some (other_num n)) t h = ground arith
assert_timestamp-reads clock (some (str s)) t h = ground arith
assert_timestamp-reads clock (some (arr vs)) t h = ground arith
assert_timestamp-reads clock (some (obj fs)) t h = ground arith

pub record IsObservation (clock : Clock) (o : Observation) : Type 0 where
  pub hash : hash_pattern o.current_complete_hash ≡ true
  pub codes : canonical o.active_codes ≡ true
  pub time : IsTimestamp clock o.observed_at

pub record IsBaseline (clock : Clock) (b : Baseline) : Type 0 where
  pub hash : hash_pattern b.current_complete_hash ≡ true
  pub codes : canonical b.codes ≡ true
  pub time : IsTimestamp clock b.observed_at
  pub last_hash : hash_pattern b.last_observed_hash ≡ true
  pub last_time : IsTimestamp clock b.last_observed_at
  pub continuity : same_bool b.eligible (is_complete b.last_state) ≡ true
  pub order : ltb b.last_observed_at.1 b.observed_at.1 ≡ false

module _ (clock : Clock) (print : Json → String) where
  pub validate_observation-valid :
      (v : Json) (o : Observation)
      → validate_observation clock print v ≡ some o
      → IsObservation clock o
  unfolding validate_observation
  validate_observation-valid (obj fs) o h =
      let m = fields fs in
      record {
        hash = ground (arith, assert_hash-pattern (get "current_complete_hash" m));
        codes = elim (Option-cases (is_array (get "active_codes" m))) [
          | inl e ↦ ground (arith, e)
          | inr (vs, e) ↦ ground (arith, e, canonical_portfolio_codes-canonical print (items vs))
        ];
        time = ground (arith, assert_timestamp-reads clock (get "observed_at" m) o.observed_at);
      }
  validate_observation-valid null o h = ground arith
  validate_observation-valid (bool b) o h = ground arith
  validate_observation-valid (num n) o h = ground arith
  validate_observation-valid (other_num n) o h = ground arith
  validate_observation-valid (str s) o h = ground arith
  validate_observation-valid (arr vs) o h = ground arith

  pub validate_portfolio_complete_baseline-valid :
      (v : Json) (b : Baseline)
      → validate_portfolio_complete_baseline clock print v ≡ some b
      → IsBaseline clock b
  unfolding validate_portfolio_complete_baseline
  validate_portfolio_complete_baseline-valid (obj fs) b h =
      let m = fields fs in
      record {
        hash = ground (arith, assert_hash-pattern (get "current_complete_hash" m));
        codes = ground (arith, assert_canonical_codes-canonical print (get "codes" m));
        time = ground (arith, assert_timestamp-reads clock (get "observed_at" m) b.observed_at);
        last_hash = ground (arith, assert_hash-pattern (get "last_observed_hash" m));
        last_time =
            ground
              (arith, assert_timestamp-reads clock (get "last_observed_at" m) b.last_observed_at);
        continuity = ground arith;
        order = ground arith;
      }
  validate_portfolio_complete_baseline-valid null o h = ground arith
  validate_portfolio_complete_baseline-valid (bool b) o h = ground arith
  validate_portfolio_complete_baseline-valid (num n) o h = ground arith
  validate_portfolio_complete_baseline-valid (other_num n) o h = ground arith
  validate_portfolio_complete_baseline-valid (str s) o h = ground arith
  validate_portfolio_complete_baseline-valid (arr vs) o h = ground arith
