-- ===== src/Workflow/Safety/Handlers.antt =====
-- The whole handlers of research-workflow.ts only take steps of the lifecycle.
use quantpro_collector.Workflow.Safety.Steps.Submit.{
  Reach-conflict_event, Reach-reject_batch, Reach-synthetic_batch, Reach-formal_batch,
}
use quantpro_collector.Workflow.Submit.Handler.{
  formal_lost, accept_formal, accept_synthetic, accept, check_lease, submit_new, submit_from,
  submit_research_result_proposal,
}
use quantpro_collector.Workflow.Submit.{
  SubmitInput, is_chatgpt, resolve_race, run_proposal_batch, reject_with,
}
use quantpro_collector.Workflow.Input.{declared_origin}
use quantpro_collector.Workflow.Canonical.{Platform, PreparedProposal}
use quantpro_collector.Prelude.{ℕ, zero, suc, ◌+◌, ◌≡◌, false, Option, some, String, arith, subst}
use mathlib.Core.Option.{some-injective}
use quantpro_collector.Db.Prog.{Prog}
use quantpro_collector.Db.Prog.Keeps.{
  Keeps, keeps_rules, Keeps-exec, Keeps-try_batch, Keeps-bind, Keeps-select, Keeps-when, Keeps-done,
  Keeps-fail, Keeps-option, Keeps-select_catch,
}
use quantpro_collector.Workflow.Rows.{
  Store, ClaimOutcome, ResearchOrigin, SubmitReason, EventSubReason, LeaseSubReason,
}
use quantpro_collector.Workflow.Lifecycle.{Reach}
use quantpro_collector.Workflow.Claim.{
  ClaimInput, after_attempt, claim_attempts, claim_from, claim_research_job,
}
use quantpro_collector.Workflow.Safety.Steps.Claim.{Reach-deny, Reach-claim_batch}

module _ {o : Store} (i : ClaimInput) (now : ℕ) where
  Keeps-after_attempt :
      (id : String) (again : Prog Store ClaimOutcome)
      → Keeps (Reach o) again
      → Keeps (Reach o) (after_attempt i now id again)
  unfolding after_attempt
  Keeps-after_attempt id again h = search (keeps_rules, Keeps-exec, Reach-deny) depth 14

  Keeps-claim_attempts : (left n : ℕ) → Keeps (Reach o) (claim_attempts i now left n)
  unfolding claim_attempts
  Keeps-claim_attempts zero n = Keeps-fail _
  Keeps-claim_attempts (suc left) n =
      let again = Keeps-claim_attempts left (n + 1) in
      Keeps-bind _ _ (Keeps-exec _ (Reach-claim_batch i now _ _ _)) λ _.
        Keeps-bind _ _ (Keeps-select _) λ lease.
          Keeps-option lease _ _ (Keeps-after_attempt _ _ again)
            λ l. Keeps-when _ _ _ (λ _. Keeps-done _) (λ _. Keeps-after_attempt _ _ again)

  Keeps-claim_from : Keeps (Reach o) (claim_from i now)
  unfolding claim_from
  Keeps-claim_from = Keeps-bind _ _ (Keeps-select _) λ visible.
      Keeps-when _ _ _ (λ _. Keeps-done _)
        λ _. Keeps-bind _ _ (Keeps-select _) λ over.
          Keeps-when _ _ _
            (λ _. Keeps-bind _ _ (Keeps-exec _ (Reach-deny i now _)) (λ _. Keeps-done _))
            λ _.
              Keeps-bind _ _ (Keeps-select _)
                λ deferral. Keeps-when _ _ _ (λ _. Keeps-done _) (λ _. Keeps-claim_attempts 2 0)

pub Keeps-claim : {o : Store} (i : ClaimInput) → Keeps (Reach o) (claim_research_job i)
unfolding claim_research_job
Keeps-claim i =
    Keeps-when _ _ _ (λ _. Keeps-fail _)
      λ _.
        Keeps-when _ _ _ (λ _. Keeps-fail _)
          λ _. Keeps-option i.now _ _ (Keeps-fail _) (Keeps-claim_from i)

module _ {o : Store} (i : SubmitInput) (now : ℕ) (prepared : PreparedProposal) where
  Keeps-resolve_race : Keeps (Reach o) (resolve_race i now prepared)
  unfolding resolve_race
  Keeps-resolve_race = Keeps-bind _ _ (Keeps-select_catch _ _) λ found.
      Keeps-option found _ _ (Keeps-done _) λ e.
        Keeps-option _ _ _
          (Keeps-bind _ _
            (Keeps-try_batch _ (λ s t r e'.
              subst (Reach o) (some-injective _ _ e')
                (Reach-conflict_event i now prepared e.proposal_id s r)))
            λ written. Keeps-when _ _ _ (λ _. Keeps-done _) (λ _. Keeps-fail _))
          (λ _. Keeps-done _)

  Keeps-run_proposal_batch :
      (batch : Store → Option Store)
      → ((s t : Store) → Reach o s → batch s ≡ some t → Reach o t)
      → Keeps (Reach o) (run_proposal_batch i now prepared batch)
  unfolding run_proposal_batch
  Keeps-run_proposal_batch batch h =
      Keeps-bind _ _ (Keeps-try_batch batch h)
        λ committed. Keeps-when _ _ _ (λ _. Keeps-done _) (λ _. Keeps-resolve_race)

  Keeps-reject_with :
      (origin : ResearchOrigin) (reason : SubmitReason) (sub : Option EventSubReason)
      (detail : Option LeaseSubReason)
      → Keeps (Reach o) (reject_with i now prepared origin reason sub detail)
  unfolding reject_with
  Keeps-reject_with origin reason sub detail =
      Keeps-bind _ _
        (Keeps-run_proposal_batch _ (Reach-reject_batch i now prepared origin reason sub))
        λ outcome. Keeps-option outcome _ _ (Keeps-done _) (λ _. Keeps-done _)

  Keeps-formal_lost : Keeps (Reach o) (formal_lost i now prepared)
  unfolding formal_lost
  Keeps-formal_lost = Keeps-bind _ _ Keeps-resolve_race λ raced.
      Keeps-option raced _ _ (Keeps-bind _ _ (Keeps-select _) (λ _. Keeps-done _))
        (λ _. Keeps-done _)

  Keeps-accept_formal : (generation : ℕ) → Keeps (Reach o) (accept_formal i now prepared generation)
  unfolding accept_formal
  Keeps-accept_formal generation =
      Keeps-bind _ _ (Keeps-try_batch _ (Reach-formal_batch i now prepared generation)) λ committed.
        Keeps-when _ _ _ (λ _. Keeps-formal_lost)
          λ _. Keeps-bind _ _ (Keeps-select _) λ proposal.
            Keeps-when _ _ _ (λ _. Keeps-formal_lost)
              λ _.
                Keeps-bind _ _ (Keeps-select _)
                  λ over. Keeps-when _ _ _ (λ _. Keeps-done _) (λ _. Keeps-formal_lost)

  Keeps-accept_synthetic :
      (origin : ResearchOrigin)
      → is_chatgpt origin ≡ false
      → Keeps (Reach o) (accept_synthetic i now prepared origin)
  unfolding accept_synthetic
  Keeps-accept_synthetic origin f =
      Keeps-bind _ _
        (Keeps-run_proposal_batch _ (λ s t. Reach-synthetic_batch i now prepared origin s t f))
        λ outcome. Keeps-option outcome _ _ (Keeps-done _) (λ _. Keeps-done _)

  Keeps-accept :
      (generation : ℕ) (origin : ResearchOrigin)
      → Keeps (Reach o) (accept i now prepared generation origin)
  unfolding accept
  Keeps-accept generation origin =
      Keeps-when _ _ _ (λ f. Keeps-accept_synthetic origin (ground arith))
        λ _. Keeps-bind _ _ (Keeps-select _) λ formal.
          Keeps-when _ _ _ (λ _. Keeps-reject_with _ _ _ _) (λ _. Keeps-accept_formal generation)

  Keeps-check_lease :
      (generation : ℕ) (origin : ResearchOrigin)
      → Keeps (Reach o) (check_lease i now prepared generation origin)
  unfolding check_lease
  Keeps-check_lease generation origin =
      Keeps-bind _ _ (Keeps-select _) λ lease.
        Keeps-option _ _ _ (Keeps-accept generation origin) (λ _. Keeps-reject_with _ _ _ _)

  Keeps-submit_new : (generation : ℕ) → Keeps (Reach o) (submit_new i now prepared generation)
  unfolding submit_new
  Keeps-submit_new generation =
      Keeps-option (declared_origin i.origin) _ _ (Keeps-done _) λ declared.
        Keeps-option _ _ _ (Keeps-check_lease generation _) (λ _. Keeps-reject_with _ _ _ _)

  pub Keeps-submit_from : (generation : ℕ) → Keeps (Reach o) (submit_from i now prepared generation)
  unfolding submit_from
  Keeps-submit_from generation = Keeps-bind _ _ (Keeps-select _) λ existing.
      Keeps-option existing _ _ (Keeps-submit_new generation) λ e.
        Keeps-option _ _ _
          (Keeps-bind _ _ (Keeps-exec _ (Reach-conflict_event i now prepared _))
            (λ _. Keeps-done _))
          (λ _. Keeps-done _)

pub Keeps-submit :
    {o : Store} (pf : Platform) (i : SubmitInput)
    → Keeps (Reach o) (submit_research_result_proposal pf i)
unfolding submit_research_result_proposal
Keeps-submit pf i =
    Keeps-when _ _ _ (λ _. Keeps-fail _)
      λ _.
        Keeps-when _ _ _ (λ _. Keeps-fail _)
          λ _. Keeps-option _ _ _ (Keeps-done _) λ generation.
            Keeps-option i.now _ _ (Keeps-fail _) λ now.
              Keeps-when _ _ _ (λ _. Keeps-done _) (λ _. Keeps-submit_from i now _ generation)
