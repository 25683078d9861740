-- ===== src/Workflow/Behaviour/Submit.antt =====
-- `submitResearchResultProposal` of research-workflow.ts: replays, the fence of the formal batch,
-- and what a synthetic result does without one.
use quantpro_collector.Prelude.{
  ℕ, suc, ◌≡◌, refl, true, false, none, some, arith, Option-cases, inl, inr, eq_refl,
}
use quantpro_collector.Db.Table.{lookup-erase}
use quantpro_collector.Db.Prog.Alone.{run_alone}
use quantpro_collector.Db.Prog.{
  ok, alone, run, ◌>>=◌, case_option, when◌then◌else◌, try_batch, select_catch,
}
use quantpro_collector.Workflow.Rows.{
  Store, ProposalRow, ResearchOrigin, SubmitOutcome, conflict, accepted_synthetic,
}
use quantpro_collector.Workflow.Tables.{
  select_lease, holds_lease, select_proposal_by_idempotency_key,
}
use quantpro_collector.Workflow.Canonical.{PreparedProposal}
use quantpro_collector.Workflow.Submit.{
  SubmitInput, outcome_for_existing, submit_proposal_id, conflict_event, resolve_race,
  run_proposal_batch, synthetic_batch, formal_batch, insert_formal, insert_terminal, release_lease,
  note_completion, may_complete,
}
use quantpro_collector.Workflow.Submit.Handler.{accept_synthetic, submit_from}

module _ (i : SubmitInput) (now : ℕ) (prepared : PreparedProposal) where
  -- A proposal whose idempotency key is already stored is answered from the stored row alone,
  -- whatever has become of the job, the lease or the caller's generation: with the verdict of the
  -- row if the payload is the same, and nothing is written; else with a conflict, and one event is.
  pub submit_from-replay :
      (generation : ℕ) (s : Store) (e : ProposalRow)
      → select_proposal_by_idempotency_key i.idempotency_key s ≡ some e
      → run alone 0 (submit_from i now prepared generation) s
        ≡ elim (outcome_for_existing e i.job_id prepared) [
          | none ↦ (
            ok (SubmitOutcome.rejected i.job_id conflict none),
            conflict_event i now prepared e.proposal_id s,
          )
          | some verdict ↦ (ok verdict, s)
        ]
  unfolding submit_from
  submit_from-replay generation s e h =
      elim (Option-cases (outcome_for_existing e i.job_id prepared)) [
        | inl f ↦ simp (run_alone, h, f)
        | inr (v, f) ↦ simp (run_alone, h, f)
      ]

  -- The formal batch of a caller that does not hold the job's unexpired lease with the expected
  -- generation changes no proposal, no terminal row and no lease, even if the lease was checked
  -- before.
  pub formal_batch-fenced :
      (generation : ℕ) (s t : Store)
      → holds_lease i.job_id i.caller_principal generation now s ≡ false
      → formal_batch i now prepared generation s ≡ some t
      → (t.proposals ≡ s.proposals) × (t.terminals ≡ s.terminals) × (t.leases ≡ s.leases)
  unfolding formal_batch insert_formal insert_terminal release_lease note_completion may_complete
  formal_batch-fenced generation s t h e = ground arith

  -- A synthetic result that is stored deletes the job's lease, whoever holds it by then and with
  -- whatever generation: the batch has no fence.
  pub synthetic_batch-unfenced :
      (origin : ResearchOrigin) (s t : Store)
      → synthetic_batch i now prepared origin s ≡ some t
      → select_lease i.job_id t ≡ none
  unfolding synthetic_batch select_lease
  synthetic_batch-unfenced origin s t e =
      ground (arith, eq_refl i.job_id, lookup-erase i.job_id i.job_id s.leases)

  -- If the database fails during the batch of a synthetic result and during the lookup behind it,
  -- the caller is told that the result was accepted, although the call has written nothing: the
  -- tables are what others made of them.
  pub accept_synthetic-lost :
      (others : ℕ → Store → Store) (n : ℕ) (origin : ResearchOrigin) (s : Store)
      → run
          (record { others = others; down = λ k. true })
          n
          (accept_synthetic i now prepared origin)
          s
        ≡ (
          ok (accepted_synthetic i.job_id (submit_proposal_id i now prepared)),
          others (suc n) (others n s),
        )
  unfolding accept_synthetic run_proposal_batch resolve_race run ◌>>=◌ try_batch select_catch
      case_option when◌then◌else◌
  accept_synthetic-lost others n origin s = refl
