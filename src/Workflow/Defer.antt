-- ===== src/Workflow/Defer.antt =====
-- `deferResearchJob` of research-workflow.ts.
use quantpro_collector.Prelude.{
  ℕ, Bool, false, not, ◌&&◌, ◌||◌, Option, none, some, String, str_eq, leb, if◌then◌else◌,
}
use quantpro_collector.Json.{num, str, obj, end, field}
use quantpro_collector.Db.Table.{insert, erase}
use quantpro_collector.Db.Prog.{
  Prog, done, fail, filtered, store_unavailable, integrity_failed, select, select_catch,
  batch_result, case_option, when◌then◌else◌, ◌>>=◌,
}
use quantpro_collector.Workflow.Rows.{
  Store, DeferralRow, DeferReason, conflict, second_result, lease_invalid, validation_failed,
  LeaseSubReason, no_lease, CurrentStatus, completed, claimed, queued, DeferOutcome,
}
use quantpro_collector.Workflow.Input.{job_id_ok, idempotency_key_ok, defer_reason, generation_ok}
use quantpro_collector.Workflow.Tables.{
  is_some, is_live, still_deferred, select_lease, select_terminal, select_deferral,
  select_deferral_by_idempotency_key, holds_lease,
}
use quantpro_collector.Workflow.Canonical.{Platform, canonical_json}
use quantpro_collector.Workflow.Submit.{lease_sub_reason}

-- `recheck_at` is what `Date.parse` makes of the input; `iso` below prints an instant again.
pub record DeferInput : Type 0 where
  pub job_id : String
  pub expected_generation : Option ℕ
  pub idempotency_key : String
  pub reason : String
  pub recheck_at : Option ℕ
  pub caller_principal : String
  pub request_id : String
  pub now : Option ℕ

-- The hash that tells a replay from a conflict; `iso` is `Date.toISOString`.
unfoldable pub defer_payload_sha256 :
    Platform → (ℕ → String) → DeferInput → (generation recheck_at : ℕ) → String
unfolding canonical_json
defer_payload_sha256 pf iso i generation recheck_at = pf.sha256 (
    canonical_json pf (
      obj (
        field "job_id" (str i.job_id) (
          field "lease_owner" (str i.caller_principal) (
            field "expected_generation" (num generation)
              (field "reason" (str i.reason) (field "recheck_at" (str (iso recheck_at)) end)))))))

module _ (i : DeferInput) (reason : DeferReason) (generation now recheck_at : ℕ)
    (payload_sha256 : String) where
  abbrev pub refuse : Option LeaseSubReason → DeferOutcome
  refuse sub = DeferOutcome.rejected i.job_id lease_invalid sub

  -- `deferredCurrentStatus`
  unfoldable pub deferred_current_status : Prog Store CurrentStatus
  deferred_current_status = do
    over ← select (select_terminal i.job_id)
    when over then done completed else do
      lease ← select (select_lease i.job_id)
      when is_live now lease then done claimed else do
        deferral ← select (select_deferral i.job_id)
        done (if still_deferred now deferral then CurrentStatus.deferred else queued)

  abbrev same_payload : Option String → Bool
  same_payload none = false
  same_payload (some h) = str_eq h payload_sha256

  -- `replayOutcome`
  unfoldable pub replay_outcome : DeferralRow → Prog Store DeferOutcome
  replay_outcome existing =
      when not (same_payload existing.payload_sha256)
      then done (DeferOutcome.rejected i.job_id conflict none)
      else do
        status ← deferred_current_status
        done (DeferOutcome.idempotent_replay i.job_id existing.recheck_at status)

  abbrev pub deferral_row : DeferralRow
  deferral_row = record {
    idempotency_key = i.idempotency_key;
    lease_owner = i.caller_principal;
    reason = reason;
    recheck_at = recheck_at;
    deferred_at = now;
    request_id = i.request_id;
    payload_sha256 = some payload_sha256;
    expected_generation = generation;
  }

  -- the condition of the INSERT: no terminal row, and the exact live lease
  unfoldable pub may_defer : Store → Bool
  unfolding select_terminal holds_lease
  may_defer s =
      not (select_terminal i.job_id s) && holds_lease i.job_id i.caller_principal generation now s

  -- Statement 1; both columns are unique.
  unfoldable pub insert_deferral : Store → Option Store
  unfolding may_defer select_deferral select_deferral_by_idempotency_key
  insert_deferral s =
      if not (may_defer s)
      then some s
      else if is_some (select_deferral i.job_id s)
          || is_some (select_deferral_by_idempotency_key i.idempotency_key s)
      then none
      else some (record s { deferrals = insert i.job_id deferral_row s.deferrals })

  -- statement 2
  unfoldable pub release_deferred : Store → Store
  unfolding holds_lease
  release_deferred s =
      if holds_lease i.job_id i.caller_principal generation now s
      then record s { leases = erase i.job_id s.leases }
      else s

  unfoldable pub defer_batch : Store → Option Store
  unfolding insert_deferral release_deferred
  defer_batch s = elim (insert_deferral s) [ none ↦ none | some s' ↦ some (release_deferred s') ]

  -- The rejection of a caller that deferred nothing: the sub-reason defaults to NO_LEASE.
  abbrev pub or_no_lease : Option LeaseSubReason → LeaseSubReason
  or_no_lease none = no_lease
  or_no_lease (some r) = r

  -- nothing was inserted
  unfoldable pub defer_refused : Prog Store DeferOutcome
  defer_refused = do
    replayed ← select (select_deferral_by_idempotency_key i.idempotency_key)
    case_option replayed
        (do
          deferral ← select (select_deferral i.job_id)
          when is_some deferral then done (DeferOutcome.rejected i.job_id conflict none) else do
            over ← select (select_terminal i.job_id)
            when over then done (DeferOutcome.rejected i.job_id second_result none) else do
              lease ← select (select_lease i.job_id)
              done (
                  refuse (
                    some (or_no_lease (lease_sub_reason i.caller_principal generation now lease)))))
        replay_outcome

  unfoldable pub defer_write : Prog Store DeferOutcome
  defer_write = do
    inserted ← batch_result defer_batch may_defer
    case_option inserted
        (do
          concurrent ← select_catch (select_deferral_by_idempotency_key i.idempotency_key) none
          case_option concurrent (fail store_unavailable) replay_outcome)
        λ one. when one then done (DeferOutcome.deferred i.job_id recheck_at) else defer_refused

  unfoldable pub defer_from : Prog Store DeferOutcome
  defer_from = do
    same_key ← select (select_deferral_by_idempotency_key i.idempotency_key)
    case_option same_key
        (when leb recheck_at now
          then done (DeferOutcome.rejected i.job_id validation_failed none)
          else do
            deferral ← select (select_deferral i.job_id)
            when is_some deferral
                then done (DeferOutcome.rejected i.job_id conflict none)
                else defer_write)
        replay_outcome

unfoldable pub defer_research_job : Platform → (ℕ → String) → DeferInput → Prog Store DeferOutcome
unfolding job_id_ok generation_ok idempotency_key_ok defer_reason defer_payload_sha256 defer_from
defer_research_job pf iso i =
    let refused = done (DeferOutcome.rejected i.job_id validation_failed none) in
    when not (job_id_ok i.job_id)
    then fail filtered
    else when str_eq i.caller_principal ""
    then fail integrity_failed
    else case_option (generation_ok i.expected_generation) refused λ generation.
      when not (idempotency_key_ok i.idempotency_key)
      then refused
      else case_option (defer_reason i.reason) refused λ reason.
        case_option i.now (fail integrity_failed) λ now.
          case_option i.recheck_at (fail integrity_failed) λ recheck_at.
            defer_from i reason generation now recheck_at
              (defer_payload_sha256 pf iso i generation recheck_at)
