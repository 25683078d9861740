-- ===== src/Workflow/Safety/Calls.antt =====
-- Any call of the work queue (src/research-workflow.ts), whatever other calls run between its
-- accesses and whichever accesses fail.
use quantpro_collector.Prelude.{ℕ, String}
use quantpro_collector.Db.Prog.{World, run}
use quantpro_collector.Db.Prog.Keeps.{
  Keeps, Respects, run-Keeps, Keeps-done, Keeps-fail, Keeps-select, Keeps-select_catch,
  Keeps-batch_result, Keeps-bind, Keeps-when, Keeps-option,
}
use quantpro_collector.Workflow.Rows.{Store, DeferralRow, DeferReason}
use quantpro_collector.Workflow.Canonical.{Platform}
use quantpro_collector.Workflow.Defer.{
  DeferInput, deferred_current_status, replay_outcome, defer_refused, defer_write, defer_from,
  defer_research_job,
}
use quantpro_collector.Workflow.Lifecycle.{Reach, here}
use quantpro_collector.Workflow.Safety.Request.{Request, handle}
use quantpro_collector.Workflow.Safety.Consistent.{IsConsistent, Reach-IsConsistent}
use quantpro_collector.Workflow.Safety.Steps.Defer.{Reach-defer_batch}
use quantpro_collector.Workflow.Safety.Handlers.{Keeps-claim, Keeps-submit}

module _ {o : Store} (i : DeferInput) (reason : DeferReason) (generation now recheck_at : ℕ)
    (payload_sha256 : String) where
  Keeps-replay_outcome :
      (d : DeferralRow)
      → Keeps (Reach o) (replay_outcome i reason generation now recheck_at payload_sha256 d)
  unfolding replay_outcome deferred_current_status
  Keeps-replay_outcome d =
      Keeps-when _ _ _ (λ _. Keeps-done _)
        λ _.
          Keeps-bind _ _
            (Keeps-bind _ _ (Keeps-select _) λ over.
              Keeps-when over _ _ (λ _. Keeps-done _)
                λ _. Keeps-bind _ _ (Keeps-select _) λ lease.
                  Keeps-when _ _ _ (λ _. Keeps-done _)
                    λ _. Keeps-bind _ _ (Keeps-select _) (λ _. Keeps-done _))
            (λ _. Keeps-done _)

  Keeps-defer_refused :
      Keeps (Reach o) (defer_refused i reason generation now recheck_at payload_sha256)
  unfolding defer_refused
  Keeps-defer_refused = Keeps-bind _ _ (Keeps-select _) λ replayed.
      Keeps-option replayed _ _
        (Keeps-bind _ _ (Keeps-select _) λ deferral.
          Keeps-when _ _ _ (λ _. Keeps-done _)
            λ _. Keeps-bind _ _ (Keeps-select _) λ over.
              Keeps-when _ _ _ (λ _. Keeps-done _)
                λ _. Keeps-bind _ _ (Keeps-select _) (λ _. Keeps-done _))
        Keeps-replay_outcome

  Keeps-defer_write :
      Keeps (Reach o) (defer_write i reason generation now recheck_at payload_sha256)
  unfolding defer_write
  Keeps-defer_write =
      Keeps-bind _ _
        (Keeps-batch_result _ _
          (Reach-defer_batch i reason generation now recheck_at payload_sha256))
        λ inserted.
          Keeps-option inserted _ _
            (Keeps-bind _ _ (Keeps-select_catch _ _)
              λ concurrent. Keeps-option concurrent _ _ (Keeps-fail _) Keeps-replay_outcome)
            (λ one. Keeps-when one _ _ (λ _. Keeps-done _) (λ _. Keeps-defer_refused))

  Keeps-defer_from : Keeps (Reach o) (defer_from i reason generation now recheck_at payload_sha256)
  unfolding defer_from
  Keeps-defer_from = Keeps-bind _ _ (Keeps-select _) λ same_key.
      Keeps-option same_key _ _
        (Keeps-when _ _ _ (λ _. Keeps-done _)
          λ _.
            Keeps-bind _ _ (Keeps-select _)
              λ deferral. Keeps-when _ _ _ (λ _. Keeps-done _) (λ _. Keeps-defer_write))
        Keeps-replay_outcome

Keeps-defer :
    {o : Store} (pf : Platform) (iso : ℕ → String) (i : DeferInput)
    → Keeps (Reach o) (defer_research_job pf iso i)
unfolding defer_research_job
Keeps-defer pf iso i =
    Keeps-when _ _ _ (λ _. Keeps-fail _)
      λ _.
        Keeps-when _ _ _ (λ _. Keeps-fail _)
          λ _. Keeps-option _ _ _ (Keeps-done _) λ generation.
            Keeps-when _ _ _ (λ _. Keeps-done _)
              λ _. Keeps-option _ _ _ (Keeps-done _) λ reason.
                Keeps-option i.now _ _ (Keeps-fail _) λ now.
                  Keeps-option i.recheck_at _ _ (Keeps-fail _)
                    λ recheck_at. Keeps-defer_from i reason generation now recheck_at _

module _ (pf : Platform) (iso : ℕ → String) where
  Keeps-handle : {o : Store} (r : Request) → Keeps (Reach o) (handle pf iso r)
  unfolding handle
  Keeps-handle (Request.claim i) = Keeps-bind _ _ (Keeps-claim i) (λ _. Keeps-done _)
  Keeps-handle (Request.submit i) = Keeps-bind _ _ (Keeps-submit pf i) (λ _. Keeps-done _)
  Keeps-handle (Request.defer i) = Keeps-bind _ _ (Keeps-defer pf iso i) (λ _. Keeps-done _)

  -- Whatever a claim, submit or defer returns or throws, and whichever of its accesses fail, the
  -- tables afterwards are reached from those before by steps of the lifecycle, if what other
  -- calls do in between is made of such steps too.
  pub handle-Reach :
      (w : World Store) (r : Request) (s : Store)
      → Respects (Reach s) w
      → Reach s (run w 0 (handle pf iso r) s).1
  handle-Reach w r s others = run-Keeps w 0 (handle pf iso r) s others (Keeps-handle r) here

  -- A claim, submit or defer keeps the tables consistent: completed jobs are those with a formal
  -- result and hold no lease, and every lease has the fixed time to live and a generation of at
  -- least 1. This holds on every outcome, whichever accesses fail, if what other calls do in
  -- between is made of steps of the lifecycle.
  pub handle-IsConsistent :
      (w : World Store) (r : Request) (s : Store)
      → Respects (Reach s) w
      → IsConsistent s
      → IsConsistent (run w 0 (handle pf iso r) s).1
  handle-IsConsistent w r s others h = Reach-IsConsistent (handle-Reach w r s others) h
