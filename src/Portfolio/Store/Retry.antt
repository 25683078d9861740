-- ===== src/Portfolio/Store/Retry.antt =====
-- `recordPortfolioUniverseObservation` of `src/portfolio-delta.ts`: what it writes is read back, and
-- a call that is cut off between its two writes can be repeated.
use quantpro_collector.Prelude.{
  ℕ, ◌≡◌, refl, Bool, false, Option, none, some, String, ◌==◌, arith, if◌then◌else◌, Option-cases,
  inl, inr, ◌∙◌, sym, ap,
}
use quantpro_collector.Json.{Json, str}
use quantpro_collector.Db.Prog.{
  World, done, run, alone, ok, outage, ◌>>=◌, select, exec, case_option,
}
use quantpro_collector.Portfolio.Codes.{
  Clock, PortfolioDeltaState, live_complete, lkg_valid, portfolio_unknown, assert_state,
}
use quantpro_collector.Portfolio.Delta.{
  Observation, Baseline, Delta, next_baseline, delta_json, validate_portfolio_universe_delta,
  validate_observation, validate_portfolio_complete_baseline, reduce_portfolio_universe_delta,
}
use quantpro_collector.Portfolio.Delta.Canonical.{assert_canonical_codes-text_items}
use quantpro_collector.Portfolio.Delta.Valid.{
  IsObservation, IsBaseline, validate_observation-valid, validate_portfolio_complete_baseline-valid,
}
use quantpro_collector.Portfolio.Delta.Exact.{
  difference, reduction, assert_hash-str, delta_json-valid, reduce_portfolio_universe_delta-exact,
}
use quantpro_collector.Portfolio.Store.{
  Kv, Platform, parse_json, to_delta, to_baseline, state_text, baseline_json, portfolio_delta_json,
  read_json, read_portfolio_complete_baseline, read_portfolio_universe_delta, put_baseline,
  put_delta, write_portfolio_complete_baseline, write_portfolio_universe_delta, write_reduction,
  record_portfolio_universe_observation,
}

assert_state-state_text :
    (st : PortfolioDeltaState) → assert_state (some (str (state_text st))) ≡ some st
unfolding assert_state
assert_state-state_text live_complete = refl
assert_state-state_text lkg_valid = refl
assert_state-state_text portfolio_unknown = refl

module _ (clock : Clock) (print : Json → String) where
  baseline_json-valid :
      (b : Baseline)
      → IsBaseline clock b
      → validate_portfolio_complete_baseline clock print (baseline_json b) ≡ some b
  unfolding validate_portfolio_complete_baseline baseline_json
  baseline_json-valid b h = simp (
    assert_hash-str b.current_complete_hash h.hash,
    assert_hash-str b.last_observed_hash h.last_hash,
    assert_canonical_codes-text_items print b.codes h.codes,
    assert_state-state_text b.last_state,
    h.continuity,
    h.order,
    h.time,
    h.last_time,
  )

  next_baseline-valid :
      (o : Observation) → IsObservation clock o → IsBaseline clock (next_baseline o)
  unfolding next_baseline
  next_baseline-valid o h = record {
    hash = h.hash;
    codes = h.codes;
    time = h.time;
    last_hash = h.hash;
    last_time = h.time;
    continuity = refl;
    order = ground arith;
  }

-- what reading the stored event gives, `none` where it throws
unfoldable pub stored_event : Platform → Option String → Option (Option Delta)
stored_event pf none = some none
stored_event pf (some t) = elim (pf.parse t) [
  | none ↦ none
  | some v ↦ elim (validate_portfolio_universe_delta pf.clock pf.print v) [
    | none ↦ none
    | some d ↦ some (some d)
  ]
]

unfoldable pub stored_baseline : Platform → Option String → Option (Option Baseline)
stored_baseline pf none = some none
stored_baseline pf (some t) = elim (pf.parse t) [
  | none ↦ none
  | some v ↦ elim (validate_portfolio_complete_baseline pf.clock pf.print v) [
    | none ↦ none
    | some b ↦ some (some b)
  ]
]

-- accesses fail as given, and nobody else writes
abbrev pub failing : (ℕ → Bool) → World Kv
failing down = record { others = λ k s. s; down = down }

module _ (pf : Platform) where
  parse_event :
      (raw : Option String) (x : Option Delta)
      → stored_event pf raw ≡ some x
      → (parse_json pf raw >>= to_delta pf) ≡ done x
  unfolding ◌>>=◌ case_option stored_event
  parse_event none x h = ground arith
  parse_event (some t) x h = elim (Option-cases (pf.parse t)) [
    | inl e ↦ ground (arith, e)
    | inr (v, e) ↦ elim (Option-cases (validate_portfolio_universe_delta pf.clock pf.print v)) [
      | inl f ↦ ground (arith, e, f)
      | inr (d, f) ↦ ground (arith, e, f)
    ]
  ]

  parse_baseline :
      (raw : Option String) (x : Option Baseline)
      → stored_baseline pf raw ≡ some x
      → (parse_json pf raw >>= to_baseline pf) ≡ done x
  unfolding ◌>>=◌ case_option stored_baseline
  parse_baseline none x h = ground arith
  parse_baseline (some t) x h = elim (Option-cases (pf.parse t)) [
    | inl e ↦ ground (arith, e)
    | inr (v, e) ↦ elim (Option-cases (validate_portfolio_complete_baseline pf.clock pf.print v)) [
      | inl f ↦ ground (arith, e, f)
      | inr (d, f) ↦ ground (arith, e, f)
    ]
  ]

module _ (pf : Platform) (down : ℕ → Bool) (up0 : down 0 ≡ false) (up1 : down 1 ≡ false)
    (up2 : down 2 ≡ false) where
  run-record :
      (current : Json) (s : Kv) (b b' : Baseline) (x : Option Delta) (d : Delta)
      → stored_baseline pf s.baseline ≡ some (some b)
      → stored_event pf s.delta ≡ some x
      → reduce_portfolio_universe_delta pf.clock pf.print (some (baseline_json b)) current
        ≡ some (some b', some d)
      → validate_portfolio_universe_delta pf.clock pf.print (portfolio_delta_json d) ≡ some d
      → validate_portfolio_complete_baseline pf.clock pf.print (baseline_json b') ≡ some b'
      → run (failing down) 0 (record_portfolio_universe_observation pf current) s ≡ (
          if down 3
          then (outage, put_delta pf d s)
          else (ok (some d), put_baseline pf b' (put_delta pf d s)))
  unfolding record_portfolio_universe_observation read_portfolio_complete_baseline read_json
      read_portfolio_universe_delta write_reduction write_portfolio_complete_baseline
      write_portfolio_universe_delta run ◌>>=◌ select exec case_option
  run-record current s b b' x d hb hx r vd vb =
      rw
        (
          up0,
          parse_baseline pf s.baseline (some b) hb,
          up1,
          parse_event pf s.delta x hx,
          r,
          vd,
          up2,
          vb,
        )
        (ground arith)

difference-valid :
    (clock : Clock) (print : Json → String) (b : Baseline) (o : Observation)
    → IsBaseline clock b
    → IsObservation clock o
    → reduction b o ≡ (some (next_baseline o), some (difference b o))
    → validate_portfolio_universe_delta clock print (portfolio_delta_json (difference b o))
      ≡ some (difference b o)
unfolding reduction portfolio_delta_json delta_json difference
difference-valid clock print b o hb ho event =
    delta_json-valid clock print b o hb ho (ground (arith, ap (λ r. r.1) event))

stored_baseline-valid :
    (pf : Platform) (raw : Option String) (b : Baseline)
    → stored_baseline pf raw ≡ some (some b)
    → IsBaseline pf.clock b
unfolding stored_baseline
stored_baseline-valid pf none b h = absurd (ground arith)
stored_baseline-valid pf (some t) b h = elim (Option-cases (pf.parse t)) [
  | inl e ↦ absurd (ground (arith, e))
  | inr (v, e) ↦
      validate_portfolio_complete_baseline-valid pf.clock pf.print v b
        (elim (Option-cases (validate_portfolio_complete_baseline pf.clock pf.print v)) [
          | inl f ↦ ground (arith, e, f)
          | inr (d, f) ↦ ground (arith, e, f)
        ])
]

-- If an observation makes an event and the call is cut off between its two writes, then the event
-- is stored and the baseline is not, and repeating the call gives the same answer and the same
-- store as a call that was not cut off. JSON must parse the event that it prints.
pub record_portfolio_universe_observation-retry :
    (pf : Platform) (s : Kv) (current : Json) (b : Baseline) (o : Observation) (x : Option Delta)
    → let printed = portfolio_delta_json (difference b o) in
      pf.parse (pf.stringify printed) ≡ some printed
      → stored_baseline pf s.baseline ≡ some (some b)
      → stored_event pf s.delta ≡ some x
      → validate_observation pf.clock pf.print current ≡ some o
      → reduction b o ≡ (some (next_baseline o), some (difference b o))
      → let call = record_portfolio_universe_observation pf current in
        let s' = put_delta pf (difference b o) s in
        (run (failing (λ n. n == 3)) 0 call s ≡ (outage, s'))
        × (run alone 0 call s' ≡ (ok (some (difference b o)), put_baseline pf (next_baseline o) s'))
        × (run alone 0 call s ≡ run alone 0 call s')
unfolding put_delta stored_event
record_portfolio_universe_observation-retry pf s current b o x json hb hx ho event =
    let valid_b = stored_baseline-valid pf s.baseline b hb in
    let valid_o = validate_observation-valid pf.clock pf.print current o ho in
    let vd = difference-valid pf.clock pf.print b o valid_b valid_o event in
    let vb =
      baseline_json-valid pf.clock pf.print (next_baseline o)
        (next_baseline-valid pf.clock pf.print o valid_o) in
    let reduced =
      (reduce_portfolio_universe_delta-exact pf.clock pf.print (baseline_json b) current b o
        (baseline_json-valid pf.clock pf.print b valid_b) ho).0
      ∙ ap some event in
    let call =
      λ (down : ℕ → Bool) (u0 : down 0 ≡ false) (u1 : down 1 ≡ false) (u2 : down 2 ≡ false) (t : Kv)
          (y : Option Delta) (ht : stored_baseline pf t.baseline ≡ some (some b))
          (hy : stored_event pf t.delta ≡ some y).
        run-record pf down u0 u1 u2 current t b (next_baseline o) y (difference b o) ht hy reduced
          vd vb in
    let s' = put_delta pf (difference b o) s in
    let again =
      call (λ n. false) refl refl refl s' (some (difference b o)) hb (ground (arith, json, vd)) in
    let first = call (λ n. false) refl refl refl s x hb hx in
    (call (λ n. n == 3) refl refl refl s x hb hx, again, first ∙ sym again)
