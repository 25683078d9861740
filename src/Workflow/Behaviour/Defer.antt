-- ===== src/Workflow/Behaviour/Defer.antt =====
-- `deferResearchJob` of research-workflow.ts: its transaction, and its outcomes.
use quantpro_collector.Prelude.{
  ℕ, ◌≡◌, true, false, none, some, arith, Bool-cases, inl, inr, eq_refl, not, leb, ltb, String,
  if◌then◌else◌,
}
use quantpro_collector.Db.Table.{lookup-erase, lookup-insert, insert, erase}
use quantpro_collector.Db.Prog.Alone.{run_alone}
use quantpro_collector.Db.Prog.{ok, alone, run}
use quantpro_collector.Workflow.Rows.{
  Store, DeferReason, DeferOutcome, conflict, second_result, validation_failed,
}
use quantpro_collector.Workflow.Tables.{
  is_some, select_lease, select_terminal, select_deferral, select_deferral_by_idempotency_key,
  holds_lease, is_claimable,
}
use quantpro_collector.Workflow.Submit.{lease_sub_reason}
use quantpro_collector.Workflow.Defer.{
  DeferInput, deferral_row, may_defer, insert_deferral, release_deferred, defer_batch,
  defer_refused, defer_write, defer_from, refuse, or_no_lease,
}

module _ (i : DeferInput) (reason : DeferReason) (generation now recheck_at : ℕ)
    (payload_sha256 : String) where
  -- the tables after a deferral: the row is there and the lease is gone
  abbrev pub postponed : Store → Store
  postponed s = record s {
    deferrals =
        insert i.job_id (deferral_row i reason generation now recheck_at payload_sha256)
          s.deferrals;
    leases = erase i.job_id s.leases;
  }

  defer_batch-postponed :
      (s : Store)
      → may_defer i reason generation now recheck_at payload_sha256 s ≡ true
      → is_some (select_deferral i.job_id s) ≡ false
      → select_deferral_by_idempotency_key i.idempotency_key s ≡ none
      → defer_batch i reason generation now recheck_at payload_sha256 s ≡ some (postponed s)
  unfolding defer_batch insert_deferral release_deferred may_defer holds_lease select_lease
  defer_batch-postponed s m d k = ground (arith, k)

  defer_batch-refused :
      (s : Store)
      → may_defer i reason generation now recheck_at payload_sha256 s ≡ false
      → defer_batch i reason generation now recheck_at payload_sha256 s
        ≡ some (release_deferred i reason generation now recheck_at payload_sha256 s)
  unfolding defer_batch insert_deferral
  defer_batch-refused s m = ground arith

  release_deferred-key :
      (key : String) (s : Store)
      → select_deferral_by_idempotency_key key
          (release_deferred i reason generation now recheck_at payload_sha256 s)
        ≡ select_deferral_by_idempotency_key key s
  unfolding release_deferred select_deferral_by_idempotency_key
  release_deferred-key key s = ground arith

  release_deferred-deferral :
      (j : String) (s : Store)
      → select_deferral j (release_deferred i reason generation now recheck_at payload_sha256 s)
        ≡ select_deferral j s
  unfolding release_deferred select_deferral
  release_deferred-deferral j s = ground arith

  release_deferred-terminal :
      (j : String) (s : Store)
      → select_terminal j (release_deferred i reason generation now recheck_at payload_sha256 s)
        ≡ select_terminal j s
  unfolding release_deferred select_terminal
  release_deferred-terminal j s = ground arith

  release_deferred-kept :
      (j : String) (s : Store)
      → may_defer i reason generation now recheck_at payload_sha256 s ≡ false
      → select_terminal i.job_id s ≡ false
      → select_lease j (release_deferred i reason generation now recheck_at payload_sha256 s)
        ≡ select_lease j s
  unfolding release_deferred may_defer
  release_deferred-kept j s m f = ground arith

  -- the answer of a caller that deferred nothing, by what the tables hold
  abbrev pub refusal : Store → DeferOutcome
  refusal s =
      if select_terminal i.job_id s
      then DeferOutcome.rejected i.job_id second_result none
      else refuse i reason generation now recheck_at payload_sha256 (
          some (
            or_no_lease i reason generation now recheck_at payload_sha256
              (lease_sub_reason i.caller_principal generation now (select_lease i.job_id s))))

  defer_refused-alone :
      (s : Store)
      → select_deferral_by_idempotency_key i.idempotency_key s ≡ none
      → is_some (select_deferral i.job_id s) ≡ false
      → may_defer i reason generation now recheck_at payload_sha256 s ≡ false
      → let t = release_deferred i reason generation now recheck_at payload_sha256 s in
        run alone 3 (defer_refused i reason generation now recheck_at payload_sha256) t
        ≡ (ok (refusal s), t)
  unfolding defer_refused
  defer_refused-alone s k d m = elim (Bool-cases (select_terminal i.job_id s)) [
    | inl f ↦ simp (
      run_alone, release_deferred-key, release_deferred-deferral, release_deferred-terminal, k, d,
      f,
    )
    | inr f ↦ simp (
      run_alone,
      release_deferred-key,
      release_deferred-deferral,
      release_deferred-terminal,
      release_deferred-kept i.job_id s m f,
      k,
      d,
      f,
    )
  ]

  -- With nothing else running, no access failing and an idempotency key that no deferral has, a
  -- deferral goes through exactly if its recheck lies ahead, the job was never deferred and is
  -- not completed, and the caller holds its unexpired lease with the expected generation. Then
  -- the row is stored and the lease is gone. Otherwise the caller is told the first reason that
  -- applies, and nothing changes but for a lease that the caller held on a completed job.
  pub defer_from-alone :
      (s : Store)
      → select_deferral_by_idempotency_key i.idempotency_key s ≡ none
      → run alone 0 (defer_from i reason generation now recheck_at payload_sha256) s ≡ (
          if leb recheck_at now
          then (ok (DeferOutcome.rejected i.job_id validation_failed none), s)
          else if is_some (select_deferral i.job_id s)
          then (ok (DeferOutcome.rejected i.job_id conflict none), s)
          else if may_defer i reason generation now recheck_at payload_sha256 s
          then (ok (DeferOutcome.deferred i.job_id recheck_at), postponed s)
          else (
            ok (refusal s),
            release_deferred i reason generation now recheck_at payload_sha256 s,
          ))
  unfolding defer_from defer_write
  defer_from-alone s k = elim (Bool-cases (leb recheck_at now)) [
    | inl e ↦ simp (run_alone, k, e)
    | inr e ↦ elim (Bool-cases (is_some (select_deferral i.job_id s))) [
      | inl d ↦ simp (run_alone, k, e, d)
      | inr d ↦ elim (Bool-cases (may_defer i reason generation now recheck_at payload_sha256 s)) [
        | inl m ↦ simp (run_alone, defer_batch-postponed s m d k, k, e, d, m)
        | inr m ↦
            simp (run_alone, defer_batch-refused s m, k, e, d, m) (defer_refused-alone s k d m)
      ]
    ]
  ]

  -- After a deferral no claim can take the job until its recheck time, and from then on one can.
  pub defer_batch-unclaimable :
      (later : ℕ) (s t : Store)
      → may_defer i reason generation now recheck_at payload_sha256 s ≡ true
      → defer_batch i reason generation now recheck_at payload_sha256 s ≡ some t
      → (select_lease i.job_id t ≡ none)
        × (is_claimable i.job_id later t ≡ not (ltb later recheck_at))
  unfolding defer_batch insert_deferral release_deferred may_defer holds_lease select_lease
      is_claimable select_terminal select_deferral
  defer_batch-unclaimable later s t m e = (
    ground (arith, eq_refl i.job_id, lookup-erase i.job_id i.job_id s.leases),
    ground (
      arith,
      eq_refl i.job_id,
      lookup-insert i.job_id i.job_id
          (deferral_row i reason generation now recheck_at payload_sha256) s.deferrals,
    ),
  )
