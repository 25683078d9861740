-- ===== src/Workflow/Behaviour/Accepted.antt =====
-- `submitResearchResultProposal` of research-workflow.ts: what an acceptance means, whatever other
-- calls do in between.
use quantpro_collector.Prelude.{ℕ, ◌≡◌, refl, Bool, true, false, Option, none, some, String, arith}
use quantpro_collector.Db.Prog.{
  Prog, done, fail, World, run, select, exec, ◌>>=◌, case_option, try_batch, select_catch,
}
use quantpro_collector.Db.Prog.Ensures.{
  Ensures, Holds, run-Ensures, Ensures-when, Ensures-option, Ensures-bind,
}
use quantpro_collector.Workflow.Rows.{
  Store, ProposalRow, ResearchOrigin, EventSubReason, SubmitReason, LeaseSubReason, SubmitOutcome,
  accepted,
}
use quantpro_collector.Workflow.Tables.{terminal_matches_proposal}
use quantpro_collector.Workflow.Canonical.{Platform, PreparedProposal}
use quantpro_collector.Workflow.Submit.{
  SubmitInput, outcome_for_existing, resolve_race, run_proposal_batch, reject_with,
}
use quantpro_collector.Workflow.Submit.Handler.{
  formal_lost, accept_formal, accept_synthetic, accept, check_lease, submit_new, submit_from,
  submit_research_result_proposal,
}

-- an accepted result is the job's terminal one
abbrev pub recorded : SubmitOutcome → Store → Bool
recorded (accepted job p) s = terminal_matches_proposal job p s
recorded _ s = true

abbrev pub calm : SubmitOutcome → Bool
calm (accepted job p) = false
calm _ = true

abbrev calm_option : Option SubmitOutcome → Bool
calm_option none = true
calm_option (some o) = calm o

calm-recorded : (o : SubmitOutcome) (s : Store) → calm o ≡ true → recorded o s ≡ true
calm-recorded o s h = ground arith

outcome_for_existing-calm :
    (e : ProposalRow) (job : String) (p : PreparedProposal)
    → calm_option (outcome_for_existing e job p) ≡ true
unfolding outcome_for_existing
outcome_for_existing-calm e job p = ground arith

module _ (i : SubmitInput) (now : ℕ) (prepared : PreparedProposal) where
  abbrev Calm : Option SubmitOutcome → Store → Type 0
  Calm o s = calm_option o ≡ true

  abbrev Recorded : SubmitOutcome → Store → Type 0
  Recorded o s = recorded o s ≡ true

  verdict-calm :
      (e : ProposalRow) (v : SubmitOutcome)
      → outcome_for_existing e i.job_id prepared ≡ some v
      → calm v ≡ true
  verdict-calm e v h = ground (arith, outcome_for_existing-calm e i.job_id prepared)

  resolve_race-Calm : (s : Store) → Ensures Calm (resolve_race i now prepared) s
  unfolding resolve_race select_catch try_batch
  resolve_race-Calm s = Ensures-bind Calm _ _ s (
    (λ t.
        Ensures-option Calm _ _ _ t (λ _. refl)
          λ e _.
            Ensures-option Calm _ _ _ t
              (λ _. Ensures-bind Calm _ _ t (
                (λ u u' _. Ensures-when Calm true _ _ u' (λ _. refl) (λ _. tt)),
                λ u. Ensures-when Calm false _ _ u (λ _. refl) (λ _. tt),
              ))
              (verdict-calm e)),
    λ t. Ensures-option Calm none _ _ t (λ _. refl) (λ e h. absurd (ground arith)),
  )

  run_proposal_batch-Calm :
      (batch : Store → Option Store) (s : Store)
      → Ensures Calm (run_proposal_batch i now prepared batch) s
  unfolding run_proposal_batch try_batch
  run_proposal_batch-Calm batch s = Ensures-bind Calm _ _ s (
    (λ t u _. Ensures-when Calm true _ _ u (λ _. refl) (λ _. resolve_race-Calm u)),
    λ t. Ensures-when Calm false _ _ t (λ _. refl) (λ _. resolve_race-Calm t),
  )

  -- a calm outcome is passed on, another is the caller's own
  or_own :
      (o : Option SubmitOutcome) (m : Prog Store SubmitOutcome) (s : Store)
      → Calm o s
      → Ensures Recorded m s
      → Ensures Recorded (case_option o m done) s
  or_own o m s c h =
      Ensures-option Recorded o m done s (λ _. h) (λ v e. calm-recorded v s (ground (arith, c, e)))

  Ensures-mono :
      {A : Type 0} (P Q : A → Store → Type 0) (m : Prog Store A) (s : Store)
      → ((a : A) (t : Store) → P a t → Q a t)
      → Ensures P m s
      → Ensures Q m s
  Ensures-mono P Q (done a) s f h = f a s h
  Ensures-mono P Q (fail e) s f h = tt
  Ensures-mono P Q (Prog.read k) s f h = λ t. Ensures-mono P Q (k t) t f (h t)
  Ensures-mono P Q (Prog.read_catch k g) s f h =
      (λ t. Ensures-mono P Q (k t) t f (h.0 t), λ t. Ensures-mono P Q g t f (h.1 t))
  Ensures-mono P Q (Prog.write u k) s f h = λ t. Ensures-mono P Q k (u t) f (h t)
  Ensures-mono P Q (Prog.attempt u k g) s f h =
      (λ t t' e. Ensures-mono P Q (k t) t' f (h.0 t t' e), λ t. Ensures-mono P Q g t f (h.1 t))

  -- a batch or a race whose calm outcome is passed on
  Calm-or :
      (m : Prog Store (Option SubmitOutcome)) (own : Prog Store SubmitOutcome) (s : Store)
      → Ensures Calm m s
      → ((t : Store) → Ensures Recorded own t)
      → Ensures Recorded (m >>= λ o. case_option o own done) s
  Calm-or m own s c h =
      Ensures-bind Recorded m _ s (Ensures-mono Calm _ m s (λ o t k. or_own o own t k (h t)) c)

  reject_with-Recorded :
      (origin : ResearchOrigin) (reason : SubmitReason) (sub : Option EventSubReason)
      (detail : Option LeaseSubReason) (s : Store)
      → Ensures Recorded (reject_with i now prepared origin reason sub detail) s
  unfolding reject_with
  reject_with-Recorded origin reason sub detail s =
      Calm-or _ _ s (run_proposal_batch-Calm _ s) (λ t. refl)

  formal_lost-Recorded : (s : Store) → Ensures Recorded (formal_lost i now prepared) s
  unfolding formal_lost select
  formal_lost-Recorded s =
      Calm-or _ _ s (resolve_race-Calm s) (λ t. Ensures-bind Recorded _ _ t (λ u. refl))

  accept_formal-Recorded :
      (generation : ℕ) (s : Store) → Ensures Recorded (accept_formal i now prepared generation) s
  unfolding accept_formal select try_batch
  accept_formal-Recorded generation s =
      let lost = formal_lost-Recorded in
      Ensures-bind Recorded _ _ s (
        (λ t u _.
            Ensures-when Recorded _ _ _ u (λ _. lost u)
              λ _. Ensures-bind Recorded _ _ u λ v.
                Ensures-when Recorded _ _ _ v (λ _. lost v)
                  λ _.
                    Ensures-bind Recorded _ _ v
                      λ x. Ensures-when Recorded _ _ _ x (λ e. e) (λ _. lost x)),
        λ t. Ensures-when Recorded _ _ _ t (λ _. lost t) (λ e. absurd (ground arith)),
      )

  accept-Recorded :
      (generation : ℕ) (origin : ResearchOrigin) (s : Store)
      → Ensures Recorded (accept i now prepared generation origin) s
  unfolding accept accept_synthetic select
  accept-Recorded generation origin s =
      Ensures-when Recorded _ _ _ s (λ _. Calm-or _ _ s (run_proposal_batch-Calm _ s) (λ t. refl))
        λ _. Ensures-bind Recorded _ _ s λ t.
          Ensures-when Recorded _ _ _ t (λ _. reject_with-Recorded _ _ _ _ t)
            (λ _. accept_formal-Recorded generation t)

  submit_from-Recorded :
      (generation : ℕ) (s : Store) → Ensures Recorded (submit_from i now prepared generation) s
  unfolding submit_from submit_new check_lease select exec
  submit_from-Recorded generation s = Ensures-bind Recorded _ _ s λ t.
      Ensures-option Recorded _ _ _ t
        (λ _.
          Ensures-option Recorded _ _ _ t (λ _. refl)
            λ declared _.
              Ensures-option Recorded _ _ _ t
                (λ _. Ensures-bind Recorded _ _ t λ u.
                  Ensures-option Recorded _ _ _ u (λ _. accept-Recorded generation _ u)
                    (λ r _. reject_with-Recorded _ _ _ _ u))
                (λ tag _. reject_with-Recorded _ _ _ _ t))
        λ e _.
          Ensures-option Recorded _ _ _ t (λ _. Ensures-bind Recorded _ _ t (λ u. refl))
            (λ v h. calm-recorded v t (verdict-calm e v h))

submit-Recorded :
    (pf : Platform) (i : SubmitInput) (s : Store)
    → Ensures (λ o t. recorded o t ≡ true) (submit_research_result_proposal pf i) s
unfolding submit_research_result_proposal
submit-Recorded pf i s =
    let Q = λ (o : SubmitOutcome) (t : Store). recorded o t ≡ true in
    Ensures-when Q _ _ _ s (λ _. tt)
      λ _.
        Ensures-when Q _ _ _ s (λ _. tt)
          λ _.
            Ensures-option Q _ _ _ s (λ _. refl)
              λ generation _.
                Ensures-option Q _ _ _ s (λ _. tt)
                  λ now _.
                    Ensures-when Q _ _ _ s (λ _. refl)
                      (λ _. submit_from-Recorded i now _ generation s)

-- Whatever other calls do between the accesses of a submission, and whichever of them fail: when it
-- answers ACCEPTED with a proposal id, the job's terminal row carries that id at that moment.
pub submit_research_result_proposal-recorded :
    (pf : Platform) (w : World Store) (i : SubmitInput) (s : Store)
    → Holds (λ o t. recorded o t ≡ true) (run w 0 (submit_research_result_proposal pf i) s)
submit_research_result_proposal-recorded pf w i s =
    run-Ensures _ w 0 (submit_research_result_proposal pf i) s (submit-Recorded pf i s)
