-- ===== src/Workflow/Submit/Handler.antt =====
-- `submitResearchResultProposal` of research-workflow.ts, from the input checks to the outcome.
use quantpro_collector.Prelude.{
  ℕ, Bool, false, not, ◌&&◌, Option, none, some, str_eq, if◌then◌else◌,
}
use quantpro_collector.Db.Prog.{
  Prog, done, fail, filtered, integrity_failed, select, exec, try_batch, case_option,
  when◌then◌else◌, ◌>>=◌, ◌>>◌,
}
use quantpro_collector.Workflow.Rows.{
  Store, ProposalRow, EventSubReason, ResearchOrigin, chatgpt, conflict, second_result,
  lease_invalid, validation_failed, SubmitOutcome, accepted, accepted_synthetic,
}
use quantpro_collector.Workflow.Input.{
  job_id_ok, idempotency_key_ok, declared_origin, generation_ok,
}
use quantpro_collector.Workflow.Tables.{
  select_lease, select_terminal, terminal_matches_proposal, select_proposal_by_idempotency_key,
}
use quantpro_collector.Workflow.Canonical.{Platform, PreparedProposal, prepare_proposal}
use quantpro_collector.Workflow.Submit.{
  SubmitInput, is_chatgpt, is_received, has_formal, outcome_for_existing, lease_sub_reason,
  effective_origin, production_origin_violation, structure_tag, submit_proposal_id, conflict_event,
  resolve_race, run_proposal_batch, reject_with, synthetic_batch, formal_batch,
}

module _ (i : SubmitInput) (now : ℕ) (prepared : PreparedProposal) where
  -- The formal batch threw, or its outcome cannot be read back.
  unfoldable pub formal_lost : Prog Store SubmitOutcome
  formal_lost = do
    raced ← resolve_race i now prepared
    case_option raced
        (do
          over ← select (select_terminal i.job_id)
          done (
              SubmitOutcome.rejected i.job_id (if over then second_result else lease_invalid) none))
        done

  -- `committedProposal?.proposal_id === proposalId && committedProposal.status === "RECEIVED"`
  abbrev pub is_committed : Option ProposalRow → Bool
  is_committed none = false
  is_committed (some p) =
      str_eq p.proposal_id (submit_proposal_id i now prepared) && is_received p.status

  unfoldable pub accept_formal : ℕ → Prog Store SubmitOutcome
  accept_formal generation = do
    committed ← try_batch (formal_batch i now prepared generation)
    when not committed then formal_lost else do
      proposal ← select (select_proposal_by_idempotency_key i.idempotency_key)
      when not (is_committed proposal) then formal_lost else do
        over ← select (terminal_matches_proposal i.job_id (submit_proposal_id i now prepared))
        when over then done (accepted i.job_id (submit_proposal_id i now prepared)) else formal_lost

  unfoldable pub accept_synthetic : ResearchOrigin → Prog Store SubmitOutcome
  accept_synthetic origin = do
    outcome ← run_proposal_batch i now prepared (synthetic_batch i now prepared origin)
    case_option outcome (done (accepted_synthetic i.job_id (submit_proposal_id i now prepared)))
        done

  -- steps 5 and 6: at most one formal result, then accept
  unfoldable pub accept : ℕ → ResearchOrigin → Prog Store SubmitOutcome
  accept generation origin = when not (is_chatgpt origin) then accept_synthetic origin else do
    formal ← select (has_formal i.job_id)
    when formal
        then reject_with i now prepared chatgpt second_result none none
        else accept_formal generation

  -- step 4: the lease
  unfoldable pub check_lease : ℕ → ResearchOrigin → Prog Store SubmitOutcome
  check_lease generation origin = do
    lease ← select (select_lease i.job_id)
    case_option (lease_sub_reason i.caller_principal generation now lease)
        (accept generation origin)
        λ r.
          reject_with i now prepared origin lease_invalid (some (EventSubReason.lease r)) (some r)

  -- steps 2 and 3: the origin, then structure and size
  unfoldable pub submit_new : ℕ → Prog Store SubmitOutcome
  submit_new generation =
      case_option (declared_origin i.origin)
        (done (SubmitOutcome.rejected i.job_id validation_failed none))
        λ declared.
          let origin = effective_origin i.caller_principal declared in
          case_option
            (structure_tag (production_origin_violation i.caller_principal declared) prepared)
            (check_lease generation origin)
            λ tag.
              reject_with i now prepared origin validation_failed
                (some (EventSubReason.structure tag)) none

  -- step 1: idempotency first
  unfoldable pub submit_from : ℕ → Prog Store SubmitOutcome
  submit_from generation = do
    existing ← select (select_proposal_by_idempotency_key i.idempotency_key)
    case_option existing (submit_new generation) λ e.
        case_option (outcome_for_existing e i.job_id prepared)
          (do
            exec (conflict_event i now prepared e.proposal_id)
            done (SubmitOutcome.rejected i.job_id conflict none))
          done

unfoldable pub submit_research_result_proposal : Platform → SubmitInput → Prog Store SubmitOutcome
submit_research_result_proposal pf i =
    let refused = done (SubmitOutcome.rejected i.job_id validation_failed none) in
    when not (job_id_ok i.job_id)
    then fail filtered
    else when str_eq i.caller_principal ""
    then fail integrity_failed
    else case_option (generation_ok i.expected_generation) refused λ generation.
      case_option i.now (fail integrity_failed) λ now.
        when not (idempotency_key_ok i.idempotency_key)
        then refused
        else submit_from i now (prepare_proposal pf i.proposal i.job_id) generation
