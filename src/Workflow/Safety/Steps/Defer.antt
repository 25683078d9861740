-- ===== src/Workflow/Safety/Steps/Defer.antt =====
-- The writes of `deferResearchJob` (research-workflow.ts) are steps of the lifecycle.
use quantpro_collector.Prelude.{
  ℕ, ◌≡◌, true, false, none, some, String, arith, Bool-cases, Option-cases, inl, inr, ◌⊎◌, subst,
  sym,
}
use quantpro_collector.Workflow.Rows.{Store, DeferReason}
use quantpro_collector.Workflow.Tables.{
  select_terminal, select_deferral, select_deferral_by_idempotency_key, holds_lease,
}
use quantpro_collector.Workflow.Defer.{
  DeferInput, insert_deferral, release_deferred, defer_batch, may_defer, deferral_row,
}
use quantpro_collector.Workflow.Lifecycle.{
  release, postpone, Reach, next, with_deferral, without_lease,
}

module _ (i : DeferInput) (reason : DeferReason) (generation now recheck_at : ℕ)
    (payload_sha256 : String) where
  defer_writes :
      (s t : Store)
      → may_defer i reason generation now recheck_at payload_sha256 s ≡ true
      → insert_deferral i reason generation now recheck_at payload_sha256 s ≡ some t
      → (select_deferral i.job_id s ≡ none)
        × (select_deferral_by_idempotency_key i.idempotency_key s ≡ none)
        × (holds_lease i.job_id i.caller_principal generation now s ≡ true)
        × (select_terminal i.job_id s ≡ false)
        × (release_deferred i reason generation now recheck_at payload_sha256 t
            ≡ with_deferral i.job_id
                (deferral_row i reason generation now recheck_at payload_sha256)
                s)
  unfolding insert_deferral release_deferred may_defer
  defer_writes s t m e = (ground arith, ground arith, ground arith, ground arith, ground arith)

  no_defer_writes :
      (s t : Store)
      → may_defer i reason generation now recheck_at payload_sha256 s ≡ false
      → insert_deferral i reason generation now recheck_at payload_sha256 s ≡ some t
      → let u = release_deferred i reason generation now recheck_at payload_sha256 t in
        (u ≡ s) ⊎ (u ≡ without_lease i.job_id s)
  unfolding insert_deferral release_deferred may_defer
  no_defer_writes s t m e = ground arith

  -- The two writes of the batch are one step, or at most a release.
  Reach-deferred :
      {o : Store} (s u : Store)
      → Reach o s
      → insert_deferral i reason generation now recheck_at payload_sha256 s ≡ some u
      → Reach o (release_deferred i reason generation now recheck_at payload_sha256 u)
  Reach-deferred {o} s u r e =
      elim (Bool-cases (may_defer i reason generation now recheck_at payload_sha256 s)) [
        | inl m ↦
            let (d, k, l, n, a) = defer_writes s u m e in
            subst (Reach o) (sym a) (
              next r (
                postpone i.job_id (deferral_row i reason generation now recheck_at payload_sha256) l
                  n d k))
        | inr m ↦ elim (no_defer_writes s u m e) [
          | inl a ↦ subst (Reach o) (sym a) r
          | inr a ↦ subst (Reach o) (sym a) (next r (release i.job_id))
        ]
      ]

  pub Reach-defer_batch :
      {o : Store} (s t : Store)
      → Reach o s
      → defer_batch i reason generation now recheck_at payload_sha256 s ≡ some t
      → Reach o t
  unfolding defer_batch
  Reach-defer_batch {o} s t r e =
      elim (Option-cases (insert_deferral i reason generation now recheck_at payload_sha256 s)) [
        | inl n ↦ absurd (ground arith)
        | inr (u, m) ↦
            let a : release_deferred i reason generation now recheck_at payload_sha256 u ≡ t =
              ground arith in
            subst (Reach o) a (Reach-deferred s u r m)
      ]
