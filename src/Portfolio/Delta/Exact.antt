-- ===== src/Portfolio/Delta/Exact.antt =====
-- The reducer of `src/portfolio-delta.ts` as a function of what its arguments hold: it never throws
-- on validated ones, and the delta is exactly the difference of the two code lists.
use quantpro_collector.Prelude.{
  ◌≡◌, refl, true, false, not, ◌&&◌, none, some, List, [], ◌∷◌, String, str_eq, eq_refl, ltb, any,
  all, arith, if◌then◌else◌,
}
use quantpro_collector.Json.{Json, str}
use quantpro_collector.Portfolio.Codes.{Clock, contains, hash_pattern, assert_hash, no_overlap}
use quantpro_collector.Portfolio.Delta.{
  Observation, Baseline, Delta, is_complete, broken_baseline, next_baseline, Reduction,
  same_timestamp_conflict, codes_outside, delta_json, reduce_from,
  validate_portfolio_universe_delta, validate_observation, validate_portfolio_complete_baseline,
  reduce_portfolio_universe_delta,
}
use quantpro_collector.Portfolio.Delta.Canonical.{
  canonical, canonical-filter, contains-filter, assert_canonical_codes-text_items,
}
use quantpro_collector.Portfolio.Delta.Valid.{
  IsObservation, IsBaseline, validate_observation-valid, validate_portfolio_complete_baseline-valid,
}

-- the event between two complete universes
unfoldable pub difference : Baseline → Observation → Delta
difference b o = record {
  previous_complete_hash = b.current_complete_hash;
  current_complete_hash = o.current_complete_hash;
  added_codes = codes_outside b.codes o.active_codes;
  removed_codes = codes_outside o.active_codes b.codes;
  observed_at = o.observed_at;
}

-- What is to become of a baseline: an older observation is ignored, an incomplete one breaks
-- continuity, and a complete one is the new baseline, with an event if continuity and the hash
-- allow one.
unfoldable pub reduction : Baseline → Observation → Reduction
reduction b o =
    if ltb o.observed_at.1 b.last_observed_at.1
    then (some b, none)
    else if not (is_complete o.state)
    then (some (broken_baseline o b), none)
    else (
      some (next_baseline o),
      (if b.eligible
            && not (same_timestamp_conflict o b)
            && not (str_eq b.current_complete_hash o.current_complete_hash)
          then some (difference b o)
          else none),
    )

pub contains-codes_outside :
    (known cs : List String) (c : String)
    → contains (codes_outside known cs) c ≡ (contains cs c && not (contains known c))
unfolding codes_outside
contains-codes_outside known cs c = contains-filter (λ d. not (contains known d)) cs c

canonical-codes_outside :
    (known cs : List String) → canonical cs ≡ true → canonical (codes_outside known cs) ≡ true
unfolding codes_outside
canonical-codes_outside known cs h = canonical-filter (λ d. not (contains known d)) cs h

all-contains-cons :
    (d : String) (known cs : List String)
    → all (contains known) cs ≡ true
    → all (contains (d ∷ known)) cs ≡ true
all-contains-cons d known [] h = refl
all-contains-cons d known (c ∷ cs) h = ground (arith, all-contains-cons d known cs)

all-contains_self : (cs : List String) → all (contains cs) cs ≡ true
all-contains_self [] = refl
all-contains_self (c ∷ cs) =
    ground (arith, eq_refl c, all-contains_self cs, all-contains-cons c cs cs)

any_outside :
    (old new cs : List String)
    → all (contains new) cs ≡ true
    → any (contains (codes_outside new old)) (codes_outside old cs) ≡ false
unfolding codes_outside
any_outside old new [] h = refl
any_outside old new (c ∷ cs) h =
    ground (arith, any_outside old new cs, contains-codes_outside new old c)

no_overlap-codes_outside :
    (old new : List String) → no_overlap (codes_outside old new) (codes_outside new old) ≡ true
unfolding no_overlap
no_overlap-codes_outside old new = ground (arith, any_outside old new new, all-contains_self new)

pub assert_hash-str : (s : String) → hash_pattern s ≡ true → assert_hash (some (str s)) ≡ some s
unfolding assert_hash
assert_hash-str s h = ground arith

module _ (clock : Clock) (print : Json → String) where
  pub delta_json-valid :
      (b : Baseline) (o : Observation)
      → IsBaseline clock b
      → IsObservation clock o
      → str_eq b.current_complete_hash o.current_complete_hash ≡ false
      → validate_portfolio_universe_delta clock print (delta_json b o) ≡ some (difference b o)
  unfolding validate_portfolio_universe_delta delta_json difference
  delta_json-valid b o hb ho n =
      let added = codes_outside b.codes o.active_codes in
      let removed = codes_outside o.active_codes b.codes in
      simp (
        assert_hash-str b.current_complete_hash hb.hash,
        assert_hash-str o.current_complete_hash ho.hash,
        n,
        assert_canonical_codes-text_items print added
            (canonical-codes_outside b.codes o.active_codes ho.codes),
        assert_canonical_codes-text_items print removed
            (canonical-codes_outside o.active_codes b.codes hb.codes),
        no_overlap-codes_outside b.codes o.active_codes,
        ho.time,
      )

  reduce_from-reduction :
      (b : Baseline) (o : Observation)
      → IsBaseline clock b
      → IsObservation clock o
      → reduce_from clock print b o ≡ some (reduction b o)
  unfolding reduce_from reduction
  reduce_from-reduction b o hb ho = ground (arith, delta_json-valid b o hb ho)

  -- On a valid stored baseline and a valid observation the reducer does not throw: an observation
  -- older than the last one is ignored, an incomplete one breaks continuity, and a complete one
  -- becomes the baseline; there is an event exactly if continuity held, the time does not conflict
  -- and the hash changed. Its added codes are those of the observation that the baseline lacks, and
  -- its removed ones those of the baseline that the observation lacks.
  pub reduce_portfolio_universe_delta-exact :
      (previous current : Json) (b : Baseline) (o : Observation)
      → validate_portfolio_complete_baseline clock print previous ≡ some b
      → validate_observation clock print current ≡ some o
      → (reduce_portfolio_universe_delta clock print (some previous) current ≡ some (reduction b o))
        × ((c : String)
            → (contains (Delta.added_codes (difference b o)) c
                ≡ (contains o.active_codes c && not (contains b.codes c)))
              × (contains (Delta.removed_codes (difference b o)) c
                  ≡ (contains b.codes c && not (contains o.active_codes c))))
  unfolding reduce_portfolio_universe_delta difference
  reduce_portfolio_universe_delta-exact previous current b o e f = (
    ground (
      arith,
      e,
      f,
      reduce_from-reduction b o
          (validate_portfolio_complete_baseline-valid clock print previous b e)
          (validate_observation-valid clock print current o f),
    ),
    λ c. (
      contains-codes_outside b.codes o.active_codes c,
      contains-codes_outside o.active_codes b.codes c,
    ),
  )
