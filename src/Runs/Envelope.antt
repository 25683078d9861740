-- ===== src/Runs/Envelope.antt =====
-- `processRunEnvelope` of `src/run-envelope.ts`. The schema, the hashes and the commands of the
-- channels are parameters.
pub mod Identity
pub mod Replay
pub mod Process
use Prim.Native.String
use quantpro_collector.Prelude.{
  ℕ, zero, suc, ◌+◌, ◌-◌, ◌*◌, ◌≤◌, ◌<◌, ◌≡◌, refl, sym, ap, subst, ◌∙◌, Bool, true, false, not,
  ◌&&◌, ◌||◌, Option, none, some, List, [], ◌∷◌, ◌++◌, map, String, str_eq, eq_iff, eq_refl, ltb,
  leb, ◌==◌, length, take, filter, any, all, find?, arith, if◌then◌else◌, Bool-cases, Option-cases,
  inl, inr, codes, min, max, ◌⊎◌, ==_iff,
}
use quantpro_collector.Json.{Json, get, record_of, text_of}
use quantpro_collector.State.Errors.{
  StateGatewayErrorCode, StateGatewayPhase, StateGatewayError, DomainError, gateway, refusal,
  state_validation_failed, state_unavailable, state_outcome_unknown, state_conflict,
  state_chain_mismatch,
}
use quantpro_collector.State.Receipts.{
  StateWriteChannel, market, StateWriteReceipt, StateReceiptStatus,
}
use quantpro_collector.State.Close.{Answer, answer, thrown}
use quantpro_collector.State.Batch.{InvestmentLedgerRole}
use quantpro_collector.Runs.Rows.{
  RunEnvelopeOutcome, completed, silent, blocked, unknown, StoredRun, RunStore, RunEnd,
}

pub data PreWriteBlocker : Type 0 where
  portfolio_not_confirmed data_unavailable upstream_unavailable : PreWriteBlocker

pub data ChannelPayload : Type 0 where
  market_payload :
      (as_of production_ref : String) (event_count : ℕ) (content : Json) → ChannelPayload
  role_payload :
      InvestmentLedgerRole → (as_of : String) (event_count : ℕ) (content : Json) → ChannelPayload

-- an envelope that the schema accepts
pub record RunEnvelope : Type 0 where
  pub task_name : String
  pub summary : String
  pub blocked_by : Option PreWriteBlocker
  pub observations : Option ℕ
  pub channel_payload : Option ChannelPayload

-- what a command of a channel answers
pub record Executed : Type 0 where
  pub is_new : Bool
  pub write_key : String
  pub comment_id : String
  pub url : String

-- The schema; the digests of an invalid envelope, of the MARKET content and of an investment
-- command, which may throw; the hour of an instant as text; a number as text; and on the rest of
-- the store the owner's context, the command of a payload and a stored receipt.
pub record Platform (R : Type 0) : Type 0 where
  pub parse : Json → Option RunEnvelope
  pub envelope_json : RunEnvelope → Json
  pub sha256 : Json → String
  pub command_sha256 : InvestmentLedgerRole → Json → Answer String
  pub hour : ℕ → String
  pub print : ℕ → String
  -- the first 1200 UTF-16 units
  pub clip : String → String
  pub date_parse : String → Option ℕ
  pub code_text : StateGatewayErrorCode → StateGatewayPhase → String
  pub resolve_owner_context : Option (R → Answer (Unit {0}))
  pub execute : ChannelPayload → (envelope_key : String) → R → Answer Executed × R
  pub find_receipt : String → R → Option StateWriteReceipt

pub record RunInput : Type 0 where
  pub envelope : Json
  pub received_at : ℕ
  pub new_run_id : String
  pub created_at : ℕ
  pub updated_at : ℕ
  pub collector_build_sha : Option String
  pub cloudflare_version_id : Option String

-- `ledger.status`
pub data LedgerStatus : Type 0 where
  persisted idempotent_replay skipped_heartbeat : LedgerStatus

pub record LedgerPart : Type 0 where
  pub status : Option LedgerStatus
  pub channel : Option StateWriteChannel
  pub write_key : Option String
  pub comment_id : Option String
  pub url : Option String

pub record RunEnvelopeReceipt : Type 0 where
  pub is_replay : Bool
  pub run_id : String
  pub task_name : String
  pub outcome : RunEnvelopeOutcome
  pub blocker_code : Option String
  pub envelope_key : String
  pub ledger : Option LedgerPart
  pub fresh_delta_count : Option ℕ
  pub event_count : Option ℕ
  pub notification_required : Bool
  pub is_stale : Bool

-- `RunEnvelopeError`
pub record RunEnvelopeError : Type 0 where
  pub error : StateGatewayError
  pub run_id : Option String
  pub outcome : Option RunEnvelopeOutcome
  pub envelope_key : Option String

pub data RunReply : Type 0 where
  receipt : RunEnvelopeReceipt → RunReply
  raised : RunEnvelopeError → RunReply
  -- an error that leaves no row and carries no run
  thrown_error : DomainError → RunReply

abbrev pub automation_registry_keys : List String
automation_registry_keys =
    "holding-assistant-intraday" ∷ "holding-assistant-preclose" ∷ "industry-research"
    ∷ "company-facts" ∷ "central-policy" ∷ "ai-financing-rates" ∷ []

abbrev pub read_only_tasks : List String
read_only_tasks = "central-policy" ∷ "ai-financing-rates" ∷ []

abbrev pub is_task : List String → String → Bool
is_task tasks t = any (λ k. str_eq k t) tasks

-- how the run went
pub data LedgerOutcome : Type 0 where
  heartbeat : LedgerOutcome
  pre_write_block : PreWriteBlocker → LedgerOutcome
  observation : (fresh_count : ℕ) → LedgerOutcome
  executed : Executed → LedgerOutcome
  failure : StateGatewayError → (event_count : Option ℕ) → LedgerOutcome

-- `outcomeForGatewayError`
unfoldable pub outcome_for_gateway_error : StateGatewayError → RunEnvelopeOutcome
outcome_for_gateway_error e = if e.retryable then unknown else elim e.code [
  | state_conflict ↦ blocked
  | state_chain_mismatch ↦ blocked
  | _ ↦ RunEnvelopeOutcome.failed
]

pub record Derived : Type 0 where
  pub outcome : RunEnvelopeOutcome
  pub fresh_delta_count : Option ℕ
  pub event_count : Option ℕ
  pub write_key : Option String
  pub comment_id : Option String
  pub url : Option String
  pub ledger_status : Option LedgerStatus

abbrev bare : RunEnvelopeOutcome → ℕ → Option LedgerStatus → Derived
bare outcome fresh status = record {
  outcome = outcome;
  fresh_delta_count = some fresh;
  event_count = some 0;
  write_key = none;
  comment_id = none;
  url = none;
  ledger_status = status;
}

-- the terminal outcome; the count of events is that of the identity, but for the bare runs and
-- the failures
unfoldable pub derive : Option ℕ → LedgerOutcome → Derived
unfolding outcome_for_gateway_error
derive n heartbeat = bare silent 0 (some skipped_heartbeat)
derive n (pre_write_block b) = bare blocked 0 none
derive n (observation fresh) = bare silent fresh none
derive n (executed x) = record {
  outcome = if x.is_new then completed else silent;
  fresh_delta_count = some (if x.is_new then 1 else 0);
  event_count = n;
  write_key = some x.write_key;
  comment_id = some x.comment_id;
  url = some x.url;
  ledger_status =
      some (if x.is_new then LedgerStatus.persisted else LedgerStatus.idempotent_replay);
}
derive n (failure e m) = record {
  outcome = outcome_for_gateway_error e;
  fresh_delta_count = none;
  event_count = m;
  write_key = none;
  comment_id = none;
  url = none;
  ledger_status = none;
}
