-- ===== src/State/Gateway.antt =====
-- `appendStateBatch` of `src/state-gateway.ts`: reserve, call the ledger, close the receipt.
use quantpro_collector.Prelude.{
  ℕ, Bool, true, false, not, Option, none, some, String, if◌then◌else◌, inr,
}
use quantpro_collector.Json.{Json}
use quantpro_collector.Db.Prog.{
  Prog, done, fail, invalid_value, select, exec, select_catch, try_batch, batch_result, case_option,
  when◌then◌else◌, ◌>>=◌,
}
use quantpro_collector.State.Errors.{
  StateGatewayErrorCode, StateGatewayError, DomainError, map_domain_error, state_conflict,
  state_unavailable, state_outcome_unknown, state_readback_failed, reconcile,
}
use quantpro_collector.State.Receipts.{
  Store, StateWriteChannel, StateReceiptStatus, StateWriteReceipt, persisted, idempotent_replay,
  outcome_unknown, conflict, failed, WriteRequest, Reservation, Finish, is_settled,
  reserve_state_write, close_receipt, get_state_write_receipt,
}
use quantpro_collector.State.Close.{Answer, answer, thrown, validate_close_dependencies}
use quantpro_collector.State.Batch.{
  InvestmentLedgerRole, Checked, Appended, Ledgers, ValidatedStateBatch, validate_state_batch,
}

pub record AppendInput : Type 0 where
  pub channel : StateWriteChannel
  pub batch : Json
  pub now : ℕ
  pub request_id : String
  pub write_key : Option String
  pub payload_sha256 : Option String
  pub envelope_key : Option String
  pub event_count : Option ℕ
  -- `new Date()` when the receipt is closed
  pub closed_at : ℕ

pub record AppendReceipt : Type 0 where
  pub status : StateReceiptStatus
  pub write_key : String
  pub payload_sha256 : String
  pub comment_id : String
  pub url : String
  pub receipt : StateWriteReceipt

-- `appendStateBatch` returns a receipt or throws
pub data AppendOutcome : Type 0 where
  appended : AppendReceipt → AppendOutcome
  refused : StateGatewayError → AppendOutcome

abbrev pub or_else : {A : Type 0} → Option A → A → A
or_else none a = a
or_else (some b) a = b

-- the request of a validated batch
abbrev pub write_request : AppendInput → ValidatedStateBatch → WriteRequest
write_request i v = record {
  write_key = or_else i.write_key v.write_key;
  channel = i.channel;
  payload_sha256 = or_else i.payload_sha256 v.payload_sha256;
  request_id = i.request_id;
  now = i.now;
  lease_seconds = none;
}

abbrev pub status_of : Appended → StateReceiptStatus
status_of a = if a.is_new then persisted else idempotent_replay

abbrev pub written : AppendInput → Appended → Finish
written i a = record {
  status = status_of a;
  updated_at = i.closed_at;
  comment_id = some a.comment_id;
  comment_url = some a.url;
  last_error_code = none;
  last_error_phase = none;
  last_http_status = none;
  envelope_key = i.envelope_key;
  event_count = i.event_count;
}

-- the status that a failed append leaves in the receipt
abbrev pub failure_status : StateGatewayErrorCode → StateReceiptStatus
failure_status state_conflict = conflict
failure_status state_outcome_unknown = outcome_unknown
failure_status state_readback_failed = outcome_unknown
failure_status _ = failed

abbrev pub unwritten : AppendInput → StateGatewayError → Finish
unwritten i e = record {
  status = failure_status e.code;
  updated_at = i.closed_at;
  comment_id = none;
  comment_url = none;
  last_error_code = some e.code;
  last_error_phase = some e.phase;
  last_http_status = e.http_status;
  envelope_key = i.envelope_key;
  event_count = i.event_count;
}

-- an error of the reconciliation
abbrev pub reconcile_error : StateGatewayErrorCode → Bool → StateGatewayError
reconcile_error code retryable = record {
  code = code;
  phase = reconcile;
  retryable = retryable;
  http_status = none;
}

module _ {R : Type 0} (l : Ledgers R) (i : AppendInput) where
  -- the CATCH around the append: the receipt is closed, then the error is thrown
  unfoldable pub append_failed : WriteRequest → DomainError → Prog (Store R) AppendOutcome
  unfolding map_domain_error close_receipt get_state_write_receipt
  append_failed q error =
      let e = map_domain_error error in
      do
        _ ← exec (close_receipt q.write_key q.request_id (unwritten i e))
        again ← select (get_state_write_receipt q.write_key)
        case_option again (fail invalid_value) λ r. done (refused e)

  abbrev pub append_receipt : WriteRequest → Appended → StateWriteReceipt → AppendOutcome
  append_receipt q a r = appended (record {
    status = status_of a;
    write_key = q.write_key;
    payload_sha256 = q.payload_sha256;
    comment_id = a.comment_id;
    url = a.url;
    receipt = r;
  })

  -- the ledger has answered
  unfoldable pub append_settled : WriteRequest → Answer Appended → Prog (Store R) AppendOutcome
  unfolding append_failed close_receipt get_state_write_receipt
  append_settled q (thrown e) = append_failed q e
  append_settled q (answer a) = do
    closed ← try_batch (λ s. some (close_receipt q.write_key q.request_id (written i a) s))
    when not closed then append_failed q DomainError.unexpected else (do
      again ← select_catch (get_state_write_receipt q.write_key) none
      case_option again (append_failed q DomainError.unexpected) λ r. done (append_receipt q a r))

  -- the call of the ledger
  abbrev pub send : Checked → Store R → Option (Store R)
  send c s = some (record s { ledgers = (l.append c s.ledgers).1 })

  unfoldable pub append_write : WriteRequest → Checked → Prog (Store R) AppendOutcome
  unfolding append_failed append_settled
  append_write q c = do
    answered ← batch_result (send c) (λ s. (l.append c s.ledgers).0)
    case_option answered (append_failed q DomainError.unexpected) (append_settled q)

  abbrev pub replayed : WriteRequest → StateWriteReceipt → AppendOutcome
  replayed q r = appended (record {
    status = idempotent_replay;
    write_key = q.write_key;
    payload_sha256 = q.payload_sha256;
    comment_id = or_else r.comment_id "";
    url = or_else r.comment_url "";
    receipt = r;
  })

  abbrev pub is_conflict : StateReceiptStatus → Bool
  is_conflict conflict = true
  is_conflict _ = false

  -- behind the reservation
  unfoldable pub append_reserved :
      WriteRequest → Checked → Reservation → Prog (Store R) AppendOutcome
  unfolding append_write
  append_reserved q c reservation =
      when is_conflict reservation.receipt.status
      then done (refused (reconcile_error state_conflict false))
      else when reservation.acquired
      then append_write q c
      else when is_settled reservation.receipt.status
      then done (replayed q reservation.receipt)
      else done (refused (reconcile_error state_unavailable true))

  unfoldable pub append_validated : ValidatedStateBatch → Prog (Store R) AppendOutcome
  unfolding append_reserved reserve_state_write
  append_validated v =
      let q = write_request i v in
      do reservation ← reserve_state_write q; append_reserved q v.checked reservation

  abbrev pub refuse : DomainError → Prog (Store R) AppendOutcome
  refuse e = done (refused (map_domain_error e))

  -- only a CLOSE batch has dependencies
  abbrev pub dependencies : Checked → Prog (Store R) (Option DomainError)
  dependencies (inr (InvestmentLedgerRole.close, b)) =
      validate_close_dependencies l.reads b.trading_date b.events
  dependencies _ = done none

  unfoldable pub append_checked : Answer ValidatedStateBatch → Prog (Store R) AppendOutcome
  unfolding append_validated map_domain_error validate_close_dependencies
  append_checked (thrown e) = refuse e
  append_checked (answer v) = do
    e ← dependencies v.checked
    case_option e (append_validated v) refuse

  -- `appendStateBatch`
  unfoldable pub append_state_batch : Prog (Store R) AppendOutcome
  unfolding validate_state_batch append_checked
  append_state_batch = append_checked (validate_state_batch l i.channel i.batch)
