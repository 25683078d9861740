-- ===== src/Portfolio/Delta/Reduce.antt =====
-- The reducer of `src/portfolio-delta.ts`: what it makes of sequences of observations.
use quantpro_collector.Prelude.{
  ℕ, ◌≡◌, refl, true, false, not, none, some, String, eq_refl, ltb, arith, if◌then◌else◌,
}
use quantpro_collector.Json.{Json}
use quantpro_collector.Portfolio.Codes.{Clock}
use quantpro_collector.Portfolio.Delta.{
  Observation, Baseline, is_complete, broken_baseline, next_baseline, reduce_from,
}

ltb_irrefl : (n : ℕ) → ltb n n ≡ false
ltb_irrefl n = ground arith

module _ (clock : Clock) (print : Json → String) where
  -- without continuity there is no delta
  reduce_from-ineligible :
      (b : Baseline) (o : Observation)
      → b.eligible ≡ false
      → reduce_from clock print b o ≡ (
          if ltb o.observed_at.1 b.last_observed_at.1
          then some (some b, none)
          else if not (is_complete o.state)
          then some (some (broken_baseline o b), none)
          else some (some (next_baseline o), none))
  unfolding reduce_from
  reduce_from-ineligible b o h = simp (h)

  -- An observation that is not complete, and not older than the last one, yields no delta and keeps
  -- the complete codes and hash. After it, no observation yields a delta until a complete one that
  -- is not older has become the new baseline: no removal is inferred across such a gap.
  pub reduce_from-gap :
      (b : Baseline) (o o' : Observation)
      → is_complete o.state ≡ false
      → ltb o.observed_at.1 b.last_observed_at.1 ≡ false
      → let b' = broken_baseline o b in
        (reduce_from clock print b o ≡ some (some b', none))
        × ((b'.codes ≡ b.codes) × (b'.current_complete_hash ≡ b.current_complete_hash))
        × (reduce_from clock print b' o' ≡ (
            if ltb o'.observed_at.1 o.observed_at.1
            then some (some b', none)
            else if not (is_complete o'.state)
            then some (some (broken_baseline o' b'), none)
            else some (some (next_baseline o'), none)))
  unfolding reduce_from broken_baseline
  reduce_from-gap b o o' h t =
      (simp (h, t), (refl, refl), reduce_from-ineligible (broken_baseline o b) o' refl)

  -- Recording the same complete observation again changes nothing and yields no delta.
  pub reduce_from-replay :
      (o : Observation)
      → is_complete o.state ≡ true
      → reduce_from clock print (next_baseline o) o ≡ some (some (next_baseline o), none)
  unfolding reduce_from next_baseline
  reduce_from-replay o h =
      ground (arith, eq_refl o.current_complete_hash, ltb_irrefl o.observed_at.1)
