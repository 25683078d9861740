-- ===== src/Workflow/Behaviour/Claim.antt =====
-- `claimResearchJob` of research-workflow.ts: its transaction, and its outcomes.
use quantpro_collector.Prelude.{
  ℕ, ◌+◌, ◌≡◌, not, ◌&&◌, Option, some, String, arith, str_eq, eq_iff, if◌then◌else◌,
}
use quantpro_collector.Db.Table.{lookup-insert}
use quantpro_collector.Db.Prog.{when◌then◌else◌}
use quantpro_collector.Workflow.Rows.{Store, LeaseRow}
use quantpro_collector.Workflow.Input.{lease_ttl_ms}
use quantpro_collector.Workflow.Tables.{
  select_lease, select_terminal, select_deferral, is_live, is_claimable,
}
use quantpro_collector.Workflow.Claim.{ClaimInput, note_expiry, preempt, note_claim, claim_batch}
use quantpro_collector.Workflow.Lifecycle.{next_generation}

module _ (i : ClaimInput) (now : ℕ) where
  -- the lease that a successful attempt leaves
  abbrev pub granted : String → Option LeaseRow → LeaseRow
  granted token before = record {
    lease_owner = i.lease_owner;
    claim_token = token;
    claimed_at = now;
    lease_expires_at = now + lease_ttl_ms;
    claim_count = next_generation before;
  }

  note_expiry-lease :
      (id j : String) (s : Store) → select_lease j (note_expiry i now id s) ≡ select_lease j s
  unfolding note_expiry
  note_expiry-lease id j s = ground arith

  note_expiry-claimable :
      (id : String) (s : Store)
      → is_claimable i.job_id now (note_expiry i now id s) ≡ is_claimable i.job_id now s
  unfolding note_expiry
  note_expiry-claimable id s = ground arith

  note_claim-lease :
      (id token j : String) (s : Store)
      → select_lease j (note_claim i now id token s) ≡ select_lease j s
  unfolding note_claim
  note_claim-lease id token j s = ground arith

  preempt-lease :
      (token j : String) (s : Store)
      → select_lease j (preempt i now token s) ≡ (
          if str_eq i.job_id j
            && (is_claimable i.job_id now s && not (is_live now (select_lease j s)))
          then some (granted token (select_lease j s))
          else select_lease j s)
  unfolding preempt
  preempt-lease token j s = ground (
    arith,
    eq_iff i.job_id j,
    lookup-insert i.job_id j (granted token (select_lease i.job_id s)) s.leases,
  )

  -- One claim transaction, on any tables: the job's lease is replaced exactly when the job is
  -- neither completed nor deferred and has no unexpired lease. The new lease is the caller's,
  -- lasts for the fixed time, and has generation 1 or one more than the lease that it replaces.
  -- No other job's lease changes.
  pub claim_batch-lease :
      (expired token id j : String) (s : Store)
      → select_lease j (claim_batch i now expired token id s) ≡ (
          if str_eq i.job_id j
            && (is_claimable i.job_id now s && not (is_live now (select_lease j s)))
          then some (granted token (select_lease j s))
          else select_lease j s)
  unfolding claim_batch
  claim_batch-lease expired token id j s =
      simp (note_claim-lease, preempt-lease, note_expiry-lease, note_expiry-claimable)

  note_expiry-terminals :
      (id j : String) (s : Store) → select_terminal j (note_expiry i now id s) ≡ select_terminal j s
  unfolding note_expiry
  note_expiry-terminals id j s = ground arith

  preempt-terminals :
      (token j : String) (s : Store)
      → select_terminal j (preempt i now token s) ≡ select_terminal j s
  unfolding preempt
  preempt-terminals token j s = ground arith

  note_claim-terminals :
      (id token j : String) (s : Store)
      → select_terminal j (note_claim i now id token s) ≡ select_terminal j s
  unfolding note_claim select_terminal
  note_claim-terminals id token j s = ground arith

  pub claim_batch-terminals :
      (expired token id j : String) (s : Store)
      → select_terminal j (claim_batch i now expired token id s) ≡ select_terminal j s
  unfolding claim_batch
  claim_batch-terminals expired token id j s =
      simp (note_claim-terminals, preempt-terminals, note_expiry-terminals)

  note_expiry-deferrals :
      (id j : String) (s : Store) → select_deferral j (note_expiry i now id s) ≡ select_deferral j s
  unfolding note_expiry
  note_expiry-deferrals id j s = ground arith

  preempt-deferrals :
      (token j : String) (s : Store)
      → select_deferral j (preempt i now token s) ≡ select_deferral j s
  unfolding preempt
  preempt-deferrals token j s = ground arith

  note_claim-deferrals :
      (id token j : String) (s : Store)
      → select_deferral j (note_claim i now id token s) ≡ select_deferral j s
  unfolding note_claim select_deferral
  note_claim-deferrals id token j s = ground arith

  pub claim_batch-deferrals :
      (expired token id j : String) (s : Store)
      → select_deferral j (claim_batch i now expired token id s) ≡ select_deferral j s
  unfolding claim_batch
  claim_batch-deferrals expired token id j s =
      simp (note_claim-deferrals, preempt-deferrals, note_expiry-deferrals)
