-- ===== src/State/Tests.antt =====
-- Appends to the state ledgers (src/state-gateway.ts) at concrete inputs: `ledgers` takes every
-- batch and keeps the event ids.
use quantpro_collector.Prelude.{
  ◌≡◌, refl, arith, Bool, str_eq, if◌then◌else◌, true, false, Option, none, some, List, [], ◌∷◌,
  String, inl, inr,
}
use quantpro_collector.Json.{Json, null, str, obj, end, field}
use quantpro_collector.Db.Table.{lookup}
use quantpro_collector.Db.Prog.{ok, alone, run}
use quantpro_collector.State.Errors.{DomainError, map_domain_error}
use quantpro_collector.State.Receipts.{Store, StateWriteChannel, StateWriteReceipt, pending, failed}
use quantpro_collector.State.Close.{
  CloseEvent, Checkpoints, answer, LedgerReads, validate_close_dependencies, chain_mismatch,
}
use quantpro_collector.State.Batch.{
  InvestmentLedgerRole, Checked, Appended, Ledgers, LedgerBatch, ValidatedStateBatch,
}
use quantpro_collector.State.Gateway.{
  AppendInput, refused, append_validated, append_state_batch, append_write, write_request,
}
use quantpro_collector.State.History.{History, Follows, IsUnleased}
use quantpro_collector.State.Calls.{append_state_batch-History}
use quantpro_collector.State.Outcome.{append_outcome, append_validated-alone}
use quantpro_collector.State.Lost.{second_down, row_status, append_write-failed}
use quantpro_collector.State.Chain.{validate_close_dependencies-backed}

abbrev Ids : Type 0
Ids = List String

abbrev id_of : Checked → String
id_of (inl c) = c.idempotency_key
id_of (inr (role, b)) = b.event_id

-- a CONFIRMED record of 600000
abbrev close_record : List (String × Json)
close_record =
    ("symbol", str "CN:600000")
    ∷ ("continuous_market_structure", obj (field "status" (str "CONFIRMED") end))
    ∷ []

abbrev checkpoints : Checkpoints
checkpoints = record { current_close = some (close_record ∷ []); previous_close = none }

abbrev company_state : String → Option String
company_state symbol = some "R2"

abbrev industry_state : String → Option String
industry_state symbol = none

abbrev reads : LedgerReads Ids
reads = record {
  industry_proposals = λ symbols ids. answer industry_state;
  company_proposals = λ symbols ids. answer company_state;
  market_checkpoints = λ date ids. answer checkpoints;
}

abbrev event : String → CloseEvent
event state = record { symbol = "CN:600000"; effective_r_state = state; r4_candidate = false }

abbrev close_batch : LedgerBatch
close_batch = record {
  event_id = "event-1";
  trading_date = "2026-01-05";
  events = event "R2" ∷ event "R3" ∷ [];
  content = null;
}

abbrev ledgers : Ledgers Ids
ledgers = record {
  parse_checkpoint = λ v. none;
  checkpoint_relations = λ c. none;
  parse_batch = λ v. some close_batch;
  role_semantics = λ role b. none;
  sha256 = λ v. "hash";
  reads = reads;
  append = λ c ids.
      (answer (record { is_new = true; comment_id = "comment"; url = "url" }), id_of c ∷ ids);
}

abbrev input : AppendInput
input = record {
  channel = StateWriteChannel.close;
  batch = null;
  now = 200000;
  request_id = "request";
  write_key = none;
  payload_sha256 = none;
  envelope_key = none;
  event_count = some 2;
  closed_at = 200900;
}

abbrev batch : ValidatedStateBatch
batch = record {
  write_key = "event-1";
  payload_sha256 = "hash";
  checked = inr (InvestmentLedgerRole.close, close_batch);
}

-- a pending receipt whose lease has run out
abbrev stale_row : StateWriteReceipt
stale_row = record {
  channel = StateWriteChannel.close;
  payload_sha256 = "hash";
  status = pending;
  comment_id = none;
  comment_url = none;
  attempt_count = 1;
  lease_owner = some "other";
  lease_until = some 150000;
  created_at = 30000;
  updated_at = 30000;
  last_error_code = none;
  last_error_phase = none;
  last_http_status = none;
  envelope_key = none;
  event_count = none;
}

abbrev stale : Store Ids
stale = record { receipts = ("event-1", stale_row) ∷ []; ledgers = [] }

abbrev new_entry : Appended
new_entry = record { is_new = true; comment_id = "comment"; url = "url" }

-- the row under the lease of the request
abbrev taken_row : StateWriteReceipt
taken_row = record stale_row {
  attempt_count = 2;
  lease_owner = some "request";
  lease_until = some 320000;
  updated_at = 200000;
}

abbrev leased : Store Ids
leased = record { receipts = ("event-1", taken_row) ∷ []; ledgers = [] }

itself-Follows : (x : Option StateWriteReceipt) → Follows x x
itself-Follows none = tt
itself-Follows (some r) = (refl, refl, λ e. refl)

pending-IsUnleased : (b : Bool) → IsUnleased (if b then some stale_row else none)
pending-IsUnleased true = λ e. ground arith
pending-IsUnleased false = tt

stale-IsUnleased : (key : String) → IsUnleased (lookup key stale.receipts)
unfolding lookup
stale-IsUnleased key = pending-IsUnleased (str_eq "event-1" key)

-- nothing is settled yet
stale-History : History stale stale
stale-History = record {
  follows = λ key. itself-Follows (lookup key stale.receipts);
  unleased = stale-IsUnleased;
}

append_state_batch-History_example :
    History stale (run alone 0 (append_state_batch ledgers input) stale).1
append_state_batch-History_example =
    append_state_batch-History ledgers alone input stale (λ n s h. h) stale-History

append_validated-alone_example :
    ((run alone 0 (append_validated ledgers input batch) stale).0
      ≡ ok (append_outcome ledgers input (write_request input batch) stale_row (answer new_entry)))
    × ((run alone 0 (append_validated ledgers input batch) stale).1.ledgers ≡ "event-1" ∷ [])
unfolding lookup
append_validated-alone_example = append_validated-alone ledgers input batch stale

append_write-failed_example :
    let out =
      run second_down 0
        (append_write ledgers input (write_request input batch) batch.checked)
        leased in
    (out.0 ≡ ok (refused (map_domain_error DomainError.unexpected)))
    × (out.1.ledgers ≡ "event-1" ∷ [])
    × (row_status (lookup "event-1" out.1.receipts) ≡ some failed)
unfolding lookup
append_write-failed_example =
    append_write-failed ledgers input (write_request input batch) batch.checked new_entry taken_row
      leased refl refl refl

-- the second event needs an INDUSTRY state R1, which no ledger has
validate_close_dependencies-backed_example :
    run alone 0
      (validate_close_dependencies reads "2026-01-05" (event "R2" ∷ event "R1" ∷ []))
      stale
    ≡ (ok chain_mismatch, stale)
validate_close_dependencies-backed_example =
    validate_close_dependencies-backed reads "2026-01-05" (event "R2" ∷ event "R1" ∷ []) stale
      industry_state company_state checkpoints refl refl refl
