-- ===== src/Workflow/Claim.antt =====
-- `claimResearchJob` of research-workflow.ts.
use quantpro_collector.Prelude.{
  ℕ, zero, suc, ◌+◌, ◌*◌, Bool, false, not, ◌&&◌, Option, none, some, String, str_eq, leb,
  if◌then◌else◌,
}
use quantpro_collector.Db.Table.{insert}
use quantpro_collector.Db.Prog.{
  Prog, done, fail, filtered, store_unavailable, integrity_failed, select, exec, case_option,
  when◌then◌else◌, ◌>>=◌, ◌>>◌,
}
use quantpro_collector.Workflow.Rows.{
  Store, LeaseRow, EventRow, EventType, EventReason, ClaimOutcome, claimed, already_claimed,
  not_claimable, not_found, terminal, deferred,
}
use quantpro_collector.Workflow.Input.{job_id_ok, lease_ttl_ms}
use quantpro_collector.Workflow.Tables.{
  Fresh, tagged, is_public, select_lease, select_terminal, select_deferral, still_deferred,
  is_claimable, add_event,
}

-- `now` is what `Date.parse` makes of the input, `none` for NaN.
pub record ClaimInput : Type 0 where
  pub job_id : String
  pub lease_owner : String
  pub request_id : String
  pub now : Option ℕ
  pub fresh : Fresh

module _ (i : ClaimInput) (now : ℕ) where
  abbrev pub claim_event : String → EventType → String → Option EventReason → EventRow
  claim_event event_id kind actor reason = record {
    event_id = event_id;
    job_id = i.job_id;
    event_type = kind;
    actor = actor;
    proposal_id = none;
    origin = none;
    reason = reason;
    sub_reason = none;
    request_id = i.request_id;
    created_at = now;
  }

  -- the CLAIM_DENIED event of a terminal job
  unfoldable pub deny : String → Store → Store
  unfolding add_event
  deny id = add_event (
      claim_event (tagged "evt_" id) EventType.claim_denied i.lease_owner
        (some (EventReason.claim terminal)))

  -- statement 1 of the batch: LEASE_EXPIRED of the lease that is about to be taken over
  unfoldable pub note_expiry : String → Store → Store
  unfolding add_event select_lease is_claimable
  note_expiry event_id s = elim (select_lease i.job_id s) [
    | none ↦ s
    | some l ↦
        if leb l.lease_expires_at now && is_claimable i.job_id now s
        then add_event (claim_event event_id EventType.lease_expired l.lease_owner none) s
        else s
  ]

  abbrev new_lease : String → ℕ → LeaseRow
  new_lease token count = record {
    lease_owner = i.lease_owner;
    claim_token = token;
    claimed_at = now;
    lease_expires_at = now + lease_ttl_ms;
    claim_count = count;
  }

  -- statement 2: INSERT, or on conflict UPDATE of an expired lease
  unfoldable pub preempt : String → Store → Store
  unfolding select_lease is_claimable
  preempt token s =
      if not (is_claimable i.job_id now s) then s else elim (select_lease i.job_id s) [
        | none ↦ record s { leases = insert i.job_id (new_lease token 1) s.leases }
        | some l ↦
            if leb l.lease_expires_at now
            then record s {
              leases = insert i.job_id (new_lease token (l.claim_count + 1)) s.leases;
            }
            else s
      ]

  -- `lease && lease.lease_owner === leaseOwner && lease.claim_token === claimToken`
  abbrev pub took : String → Option LeaseRow → Bool
  took token none = false
  took token (some l) = str_eq l.lease_owner i.lease_owner && str_eq l.claim_token token

  -- statement 3: CLAIMED, if the transition took place
  unfoldable pub note_claim : String → String → Store → Store
  unfolding add_event select_lease
  note_claim event_id token s =
      if took token (select_lease i.job_id s)
      then add_event (claim_event event_id EventType.claimed i.lease_owner none) s
      else s

  -- the batch of one attempt
  unfoldable pub claim_batch : String → String → String → Store → Store
  claim_batch expired_id token event_id s =
      note_claim event_id token (preempt token (note_expiry expired_id s))

  abbrev claimed_outcome : LeaseRow → ClaimOutcome
  claimed_outcome l = claimed i.job_id l.lease_owner l.claimed_at l.lease_expires_at l.claim_count

  -- what follows an attempt that did not take the lease
  unfoldable pub after_attempt : String → Prog Store ClaimOutcome → Prog Store ClaimOutcome
  after_attempt denied_id again = do
    over ← select (select_terminal i.job_id)
    when over then (exec (deny denied_id) >> done (not_claimable i.job_id terminal)) else do
      deferral ← select (select_deferral i.job_id)
      when still_deferred now deferral then done (not_claimable i.job_id deferred) else do
        current ← select (select_lease i.job_id)
        case_option current again λ l.
            when leb l.lease_expires_at now
            then again
            else when str_eq l.lease_owner i.lease_owner
            then done (claimed_outcome l)
            else done (already_claimed i.job_id l.lease_owner l.lease_expires_at)

  -- The loop of at most two attempts; attempt `n` uses the ids from `4 * n` on.
  unfoldable pub claim_attempts : ℕ → ℕ → Prog Store ClaimOutcome
  claim_attempts zero n = fail store_unavailable
  claim_attempts (suc left) n =
      let token = tagged "clt_" (i.fresh (4 * n)) in
      let again = claim_attempts left (n + 1) in
      do
        exec (
            claim_batch (tagged "evt_" (i.fresh (4 * n + 2))) token
              (tagged "evt_" (i.fresh (4 * n + 1))))
        lease ← select (select_lease i.job_id)
        case_option lease (after_attempt (i.fresh (4 * n + 3)) again) λ l.
            when took token (some l)
            then done (claimed_outcome l)
            else after_attempt (i.fresh (4 * n + 3)) again

  -- everything behind the input checks
  unfoldable pub claim_from : Prog Store ClaimOutcome
  claim_from = do
    visible ← select (is_public i.job_id)
    when not visible then done (not_claimable i.job_id not_found) else do
      over ← select (select_terminal i.job_id)
      when over then (exec (deny (i.fresh 8)) >> done (not_claimable i.job_id terminal)) else do
        deferral ← select (select_deferral i.job_id)
        when still_deferred now deferral
            then done (not_claimable i.job_id deferred)
            else claim_attempts 2 0

unfoldable pub claim_research_job : ClaimInput → Prog Store ClaimOutcome
claim_research_job i =
    when not (job_id_ok i.job_id)
    then fail filtered
    else when str_eq i.lease_owner ""
    then fail integrity_failed
    else case_option i.now (fail integrity_failed) λ now. claim_from i now
