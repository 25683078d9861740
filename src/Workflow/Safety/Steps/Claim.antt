-- ===== src/Workflow/Safety/Steps/Claim.antt =====
-- The writes of `claimResearchJob` (research-workflow.ts) are steps of the lifecycle.
use quantpro_collector.Prelude.{
  ℕ, refl, not, ◌&&◌, none, String, arith, if_intro, Option-cases, inl, inr, leb,
}
use quantpro_collector.Workflow.Rows.{Store, EventType}
use quantpro_collector.Workflow.Tables.{select_lease, is_claimable}
use quantpro_collector.Workflow.Claim.{
  ClaimInput, claim_event, took, deny, note_expiry, preempt, note_claim, claim_batch,
}
use quantpro_collector.Workflow.Lifecycle.{log, grant, Reach, next}

module _ (i : ClaimInput) (now : ℕ) where
  pub Reach-deny : {o : Store} (id : String) (s : Store) → Reach o s → Reach o (deny i now id s)
  unfolding deny
  Reach-deny {o} id s r = next r (log _)

  Reach-note_expiry :
      {o : Store} (id : String) (s : Store) → Reach o s → Reach o (note_expiry i now id s)
  unfolding note_expiry
  Reach-note_expiry {o} id s r = elim (Option-cases (select_lease i.job_id s)) [
    | inl e ↦ rw (e, note_expiry) r
    | inr (l, e) ↦
        rw (e, note_expiry)
          (if_intro (Reach o) (leb l.lease_expires_at now && is_claimable i.job_id now s)
            (λ _. next r (log (claim_event i now id EventType.lease_expired l.lease_owner none)))
            (λ _. r))
  ]

  Reach-preempt :
      {o : Store} (token : String) (s : Store) → Reach o s → Reach o (preempt i now token s)
  unfolding preempt is_claimable
  Reach-preempt {o} token s r =
      if_intro (Reach o) (not (is_claimable i.job_id now s)) (λ _. r)
        λ c. elim (Option-cases (select_lease i.job_id s)) [
          | inl e ↦
              rw (e, preempt)
                (next r (
                  grant i.job_id now _ (ground arith) (ground arith) (ground arith) (ground arith)
                    refl refl))
          | inr (l, e) ↦
              rw (e, preempt)
                (if_intro (Reach o) (leb l.lease_expires_at now)
                  (λ d. next r (
                    grant i.job_id now _ (ground arith) (ground arith) (ground arith) (ground arith)
                      refl refl))
                  (λ _. r))
        ]

  Reach-note_claim :
      {o : Store} (id token : String) (s : Store)
      → Reach o s
      → Reach o (note_claim i now id token s)
  unfolding note_claim
  Reach-note_claim {o} id token s r =
      if_intro (Reach o) (took i now token (select_lease i.job_id s))
        (λ _. next r (log (claim_event i now id EventType.claimed i.lease_owner none))) (λ _. r)

  pub Reach-claim_batch :
      {o : Store} (expired token id : String) (s : Store)
      → Reach o s
      → Reach o (claim_batch i now expired token id s)
  unfolding claim_batch
  Reach-claim_batch {o} expired token id s r =
      Reach-note_claim id token _ (Reach-preempt token _ (Reach-note_expiry expired s r))
