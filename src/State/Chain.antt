-- ===== src/State/Chain.antt =====
-- `validateCloseDependencies` (src/state-gateway.ts): which CLOSE batches pass.
use quantpro_collector.Prelude.{
  ◌≡◌, refl, ap, ◌∙◌, Bool, true, false, not, ◌&&◌, ◌||◌, Option, none, List, [], ◌∷◌, String,
  str_eq, filter, all, arith, if◌then◌else◌, Bool-cases, inl, inr,
}
use quantpro_collector.Db.Prog.{ok, alone, run}
use quantpro_collector.Db.Prog.Alone.{run_alone}
use quantpro_collector.State.Errors.{DomainError}
use quantpro_collector.Db.Prog.Bind.{run-bind, continue-ok}
use quantpro_collector.State.Receipts.{Store}
use quantpro_collector.State.Close.{
  CloseEvent, Checkpoints, Answer, answer, LedgerReads, needs_industry, needs_company, needs_market,
  proposed, confirmed_in, check_proposals, check_closes, check_market, symbols_of,
  validate_close_dependencies, chain_mismatch, ask, some_event,
}

abbrev pub closes : Checkpoints → CloseEvent → Bool
closes c e =
    (not (needs_market e) || confirmed_in c.current_close e.symbol)
    && (not (str_eq e.effective_r_state "R4") || confirmed_in c.previous_close e.symbol)

-- What one event needs: R1 an INDUSTRY R1; R2, R3 and R4, and a candidate for R4, a COMPANY R2;
-- R4 and a candidate a confirmation by the day's close, and R4 by the previous close too.
abbrev pub is_backed : (industry company : String → Option String) → Checkpoints → CloseEvent → Bool
is_backed industry company c e =
    (not (needs_industry e) || proposed "R1" (industry e.symbol))
    && ((not (needs_company e) || proposed "R2" (company e.symbol)) && closes c e)

check_proposals-all :
    (state : String) (latest : String → Option String) (needs : CloseEvent → Bool)
    (es : List CloseEvent)
    → check_proposals state latest (filter needs es) ≡ (
        if all (λ e. not (needs e) || proposed state (latest e.symbol)) es
        then none
        else chain_mismatch)
unfolding check_proposals
check_proposals-all state latest needs [] = refl
check_proposals-all state latest needs (e ∷ es) =
    ground (arith, check_proposals-all state latest needs es)

check_closes-all :
    (c : Checkpoints) (es : List CloseEvent)
    → check_closes c (filter needs_market es) ≡ (if all (closes c) es then none else chain_mismatch)
unfolding check_closes
check_closes-all c [] = refl
check_closes-all c (e ∷ es) = ground (arith, check_closes-all c es)

all-and :
    {A : Type 0} (p q r : A → Bool) (xs : List A)
    → all (λ x. p x && (q x && r x)) xs ≡ (all p xs && (all q xs && all r xs))
all-and p q r [] = refl
all-and p q r (x ∷ xs) = ground (arith, all-and p q r xs)

-- the loop is run only if there is an event, which makes no difference
check_market-closes :
    (c : Checkpoints) (es : List CloseEvent)
    → (if some_event es then check_market c es else none) ≡ check_closes c es
unfolding check_market check_closes
check_market-closes c [] = refl
check_market-closes c (e ∷ es) = ground arith

proposals-asked :
    (state : String) (latest : String → Option String) (es : List CloseEvent)
    → (if some_event es then check_proposals state latest es else none)
      ≡ check_proposals state latest es
unfolding check_proposals
proposals-asked state latest [] = refl
proposals-asked state latest (e ∷ es) = refl

module _ {R : Type 0} (ledgers : LedgerReads R) where
  ask-alone :
      {A : Type 0} (b : Bool) (ask_for : R → Answer A) (check : A → Option DomainError) (a : A)
      (s : Store R)
      → ask_for s.ledgers ≡ answer a
      → run alone 0 (ask b ask_for check) s ≡ (ok (if b then check a else none), s)
  unfolding ask
  ask-alone true ask_for check a s h = simp (run_alone, h)
  ask-alone false ask_for check a s h = simp run_alone

  ask-proposals :
      (state : String) (needs : CloseEvent → Bool)
      (ask_for : List String → R → Answer (String → Option String)) (es : List CloseEvent)
      (latest : String → Option String) (s : Store R)
      → ask_for (symbols_of (filter needs es)) s.ledgers ≡ answer latest
      → run alone 0
          (ask
            (some_event (filter needs es))
            (ask_for (symbols_of (filter needs es)))
            (λ found. check_proposals state found (filter needs es)))
          s
        ≡ (
          ok (
              if all (λ e. not (needs e) || proposed state (latest e.symbol)) es
              then none
              else chain_mismatch),
          s,
        )
  ask-proposals state needs ask_for es latest s h =
      ask-alone (some_event (filter needs es)) (ask_for (symbols_of (filter needs es)))
        (λ found. check_proposals state found (filter needs es)) latest s h
      ∙ ap (λ o. (ok o, s))
          (proposals-asked state latest (filter needs es)
            ∙ check_proposals-all state latest needs es)

  ask-closes :
      (date : String) (es : List CloseEvent) (c : Checkpoints) (s : Store R)
      → ledgers.market_checkpoints date s.ledgers ≡ answer c
      → run alone 0
          (ask
            (some_event (filter needs_market es))
            (ledgers.market_checkpoints date)
            (λ found. check_market found (filter needs_market es)))
          s
        ≡ (ok (if all (closes c) es then none else chain_mismatch), s)
  ask-closes date es c s h =
      ask-alone (some_event (filter needs_market es)) (ledgers.market_checkpoints date)
        (λ found. check_market found (filter needs_market es)) c s h
      ∙ ap (λ o. (ok o, s)) (check_market-closes c (filter needs_market es) ∙ check_closes-all c es)

  -- If the ledgers answer, a CLOSE batch passes the check of its dependencies exactly if every
  -- event of it is backed; otherwise the error is a chain mismatch. The check writes nothing.
  pub validate_close_dependencies-backed :
      (date : String) (es : List CloseEvent) (s : Store R)
      (industry company : String → Option String) (c : Checkpoints)
      → ledgers.industry_proposals (symbols_of (filter needs_industry es)) s.ledgers
        ≡ answer industry
      → ledgers.company_proposals (symbols_of (filter needs_company es)) s.ledgers ≡ answer company
      → ledgers.market_checkpoints date s.ledgers ≡ answer c
      → run alone 0 (validate_close_dependencies ledgers date es) s
        ≡ (ok (if all (is_backed industry company c) es then none else chain_mismatch), s)
  unfolding validate_close_dependencies
  validate_close_dependencies-backed date es s industry company c hi hc hm =
      let p = all (λ e. not (needs_industry e) || proposed "R1" (industry e.symbol)) es in
      let q = all (λ e. not (needs_company e) || proposed "R2" (company e.symbol)) es in
      let i = ask-proposals "R1" needs_industry ledgers.industry_proposals es industry s hi in
      let d = ask-proposals "R2" needs_company ledgers.company_proposals es company s hc in
      let m = ask-closes date es c s hm in
      let whole =
        all-and (λ e. not (needs_industry e) || proposed "R1" (industry e.symbol))
          (λ e. not (needs_company e) || proposed "R2" (company e.symbol)) (closes c) es in
      elim (Bool-cases p) [
        | inr e ↦ simp (run-bind, i, continue-ok, run_alone, whole, e)
        | inl e ↦ elim (Bool-cases q) [
          | inr f ↦ simp (run-bind, i, d, continue-ok, run_alone, whole, e, f)
          | inl f ↦ simp (run-bind, i, d, m, continue-ok, run_alone, whole, e, f)
        ]
      ]
