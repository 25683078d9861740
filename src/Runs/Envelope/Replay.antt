-- ===== src/Runs/Envelope/Replay.antt =====
-- The answers of `src/run-envelope.ts` that need no run: a stored run replayed, and an envelope that
-- is refused.
use quantpro_collector.Prelude.{
  ℕ, Bool, true, false, not, ◌&&◌, Option, none, some, String, str_eq, ltb, if◌then◌else◌, codes,
  strip_prefix,
}
use quantpro_collector.Db.Prog.{
  Prog, done, fail, invalid_value, select, batch_result, case_option, when◌then◌else◌, ◌>>=◌,
}
use quantpro_collector.State.Errors.{
  StateGatewayPhase, StateGatewayError, DomainError, gateway, refusal, state_validation_failed,
  state_unavailable, state_outcome_unknown,
}
use quantpro_collector.State.Receipts.{StateWriteReceipt, StateReceiptStatus}
use quantpro_collector.Runs.Rows.{
  RunEnvelopeOutcome, failed, StoredRun, RunStore, read_run, holds_run, insert_run,
}
use quantpro_collector.Runs.Envelope.{
  Platform, RunInput, LedgerStatus, LedgerPart, skipped_heartbeat, RunEnvelopeReceipt,
  RunEnvelopeError, RunReply, receipt, raised,
}
use quantpro_collector.Runs.Envelope.Identity.{compute_timeliness, is_some}

module _ {R : Type 0} (pf : Platform R) (i : RunInput) where
  abbrev pub truthy : Option String → Option String
  truthy none = none
  truthy (some s) = if str_eq s "" then none else some s

  abbrev pub replayed_status : Option StateWriteReceipt → Option LedgerStatus
  replayed_status none = none
  replayed_status (some r) = elim r.status [
    | StateReceiptStatus.persisted ↦ some LedgerStatus.persisted
    | StateReceiptStatus.idempotent_replay ↦ some LedgerStatus.idempotent_replay
    | _ ↦ none
  ]

  abbrev pub comment_of : Option StateWriteReceipt → Option String
  comment_of none = none
  comment_of (some r) = r.comment_id

  abbrev pub url_of : Option StateWriteReceipt → Option String
  url_of none = none
  url_of (some r) = r.comment_url

  abbrev pub starts_with : String → String → Bool
  starts_with prefix s = is_some (strip_prefix (codes prefix) (codes s))

  -- `ledgerFromReceipt`
  unfoldable pub ledger_from_receipt : StoredRun → Option StateWriteReceipt → Option LedgerPart
  ledger_from_receipt row found = elim (truthy row.write_key) [
    | none ↦
        if not (is_some row.channel) && starts_with "HB:" row.envelope_key
        then some (record {
          status = some skipped_heartbeat;
          channel = none;
          write_key = none;
          comment_id = none;
          url = none;
        })
        else none
    | some key ↦ some (record {
      status = replayed_status found;
      channel = row.channel;
      write_key = some key;
      comment_id = comment_of found;
      url = url_of found;
    })
  ]

  abbrev pub notifies : Option ℕ → Bool
  notifies none = false
  notifies (some n) = ltb 0 n

  abbrev pub stored_receipt : StoredRun → Option StateWriteReceipt → RunEnvelopeReceipt
  stored_receipt row found = record {
    is_replay = true;
    run_id = row.run_id;
    task_name = row.task_name;
    outcome = row.outcome;
    blocker_code = row.blocker_code;
    envelope_key = row.envelope_key;
    ledger = ledger_from_receipt row found;
    fresh_delta_count = row.fresh_delta_count;
    event_count = row.event_count;
    notification_required = notifies row.fresh_delta_count;
    is_stale = compute_timeliness pf row.as_of row.received_at;
  }

  -- `receiptFromRow`
  unfoldable pub receipt_from_row : StoredRun → Prog (RunStore R) RunReply
  receipt_from_row row =
      case_option (truthy row.write_key) (done (receipt (stored_receipt row none))) λ key. do
        found ← select (λ s. pf.find_receipt key s.rest)
        done (receipt (stored_receipt row found))

  abbrev pub invalid_error : Option String → Option RunEnvelopeOutcome → RunEnvelopeError
  invalid_error key outcome = record {
    error = refusal state_validation_failed;
    run_id = none;
    outcome = outcome;
    envelope_key = key;
  }

  abbrev pub new_row :
      (task id key : String)
      → RunEnvelopeOutcome
      → (blocker summary prompt : Option String) → StoredRun
  new_row task id key outcome blocker summary prompt = record {
    task_name = task;
    run_id = id;
    envelope_key = key;
    channel = none;
    write_key = none;
    as_of = none;
    received_at = i.received_at;
    fresh_delta_count = none;
    event_count = none;
    outcome = outcome;
    blocker_code = blocker;
    summary = summary;
    prompt_version = prompt;
    collector_build_sha = i.collector_build_sha;
    cloudflare_version_id = i.cloudflare_version_id;
    created_at = i.created_at;
    updated_at = i.created_at;
  }

  abbrev pub invalid_code : String
  invalid_code = "STATE_VALIDATION_FAILED:VALIDATE"

  -- `insertInvalidRunRow`, and what is made of it: the row that is there is replayed
  unfoldable pub record_invalid : (task key : String) → Option String → Prog (RunStore R) RunReply
  record_invalid task key summary = do
    inserted ←
        batch_result
          (insert_run (new_row task i.new_run_id key failed (some invalid_code) summary none))
          (λ s. not (holds_run task key s))
    case_option inserted (fail invalid_value) λ fresh.
        when fresh then done (raised (invalid_error (some key) (some failed))) else do
          row ← select (read_run task key)
          case_option row (done (raised (invalid_error (some key) (some failed)))) receipt_from_row

  abbrev pub unavailable : StateGatewayPhase → StateGatewayError
  unavailable phase = record {
    code = state_unavailable;
    phase = phase;
    retryable = true;
    http_status = none;
  }

  -- the row could not be reserved
  abbrev pub unreserved : (id key : String) → RunReply
  unreserved id key = raised (record {
    error = unavailable StateGatewayPhase.write;
    run_id = some id;
    outcome = none;
    envelope_key = some key;
  })

  -- an error that is no gateway error is unclassified
  abbrev pub classified : DomainError → StateGatewayError
  classified (gateway e) = e
  classified _ = record {
    code = state_outcome_unknown;
    phase = StateGatewayPhase.write;
    retryable = true;
    http_status = none;
  }
