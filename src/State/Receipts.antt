-- ===== src/State/Receipts.antt =====
-- `src/state-receipts.ts`: the receipts of writes, their reservation and their end. The table is
-- there: its creation is left out.
use quantpro_collector.Prelude.{
  ℕ, ◌+◌, ◌*◌, Bool, true, false, not, ◌&&◌, ◌||◌, Option, none, some, String, str_eq, ltb, min,
  max, if◌then◌else◌,
}
use quantpro_collector.Db.Table.{Table, lookup, insert}
use quantpro_collector.Db.Prog.{
  Prog, done, fail, invalid_value, select, exec, case_option, when◌then◌else◌, ◌>>=◌,
}
use quantpro_collector.State.Errors.{StateGatewayErrorCode, StateGatewayPhase}

pub data StateWriteChannel : Type 0 where
  market industry company close : StateWriteChannel

pub data StateReceiptStatus : Type 0 where
  pending persisted idempotent_replay outcome_unknown conflict failed : StateReceiptStatus

pub record StateWriteReceipt : Type 0 where
  pub channel : StateWriteChannel
  pub payload_sha256 : String
  pub status : StateReceiptStatus
  pub comment_id : Option String
  pub comment_url : Option String
  pub attempt_count : ℕ
  pub lease_owner : Option String
  pub lease_until : Option ℕ
  pub created_at : ℕ
  pub updated_at : ℕ
  pub last_error_code : Option StateGatewayErrorCode
  pub last_error_phase : Option StateGatewayPhase
  pub last_http_status : Option ℕ
  pub envelope_key : Option String
  pub event_count : Option ℕ

-- the receipts, and the ledgers that the writes go to
pub record Store (R : Type 0) : Type 0 where
  pub receipts : Table StateWriteReceipt
  pub ledgers : R

-- `status IN ('PERSISTED', 'IDEMPOTENT_REPLAY')`
abbrev pub is_settled : StateReceiptStatus → Bool
is_settled persisted = true
is_settled idempotent_replay = true
is_settled _ = false

-- `status NOT IN ('PERSISTED', 'IDEMPOTENT_REPLAY', 'CONFLICT')`
abbrev pub is_open : StateReceiptStatus → Bool
is_open persisted = false
is_open idempotent_replay = false
is_open conflict = false
is_open _ = true

abbrev pub same_channel : StateWriteChannel → StateWriteChannel → Bool
same_channel market market = true
same_channel industry industry = true
same_channel company company = true
same_channel close close = true
same_channel _ _ = false

-- UPDATE ... WHERE write_key = ?, with the rest of the condition in the function
unfoldable pub update_row : {V : Type 0} → String → (V → V) → Table V → Table V
update_row key f t = elim (lookup key t) [ none ↦ t | some r ↦ insert key (f r) t ]

-- INSERT OR IGNORE
unfoldable pub insert_or_ignore : {V : Type 0} → String → V → Table V → Table V
insert_or_ignore key r t = elim (lookup key t) [ none ↦ insert key r t | some q ↦ t ]

pub record Reservation : Type 0 where
  pub acquired : Bool
  pub receipt : StateWriteReceipt

-- the arguments of `reserveStateWrite`
pub record WriteRequest : Type 0 where
  pub write_key : String
  pub channel : StateWriteChannel
  pub payload_sha256 : String
  pub request_id : String
  pub now : ℕ
  pub lease_seconds : Option ℕ

abbrev seconds_of : Option ℕ → ℕ
seconds_of none = 120
seconds_of (some n) = n

unfoldable pub lease_until : WriteRequest → ℕ
lease_until q = q.now + max 30 (min 600 (seconds_of q.lease_seconds)) * 1000

abbrev pub new_receipt : WriteRequest → StateWriteReceipt
new_receipt q = record {
  channel = q.channel;
  payload_sha256 = q.payload_sha256;
  status = pending;
  comment_id = none;
  comment_url = none;
  attempt_count = 0;
  lease_owner = none;
  lease_until = none;
  created_at = q.now;
  updated_at = q.now;
  last_error_code = none;
  last_error_phase = none;
  last_http_status = none;
  envelope_key = none;
  event_count = none;
}

-- the payload and the channel are the request's
abbrev pub same_write : WriteRequest → StateWriteReceipt → Bool
same_write q r = str_eq r.payload_sha256 q.payload_sha256 && same_channel r.channel q.channel

-- `lease_owner IS NULL OR lease_until IS NULL OR lease_until < now OR lease_owner = request_id`
abbrev pub is_free : String → ℕ → Option String → Option ℕ → Bool
is_free request_id now none until = true
is_free request_id now (some owner) none = true
is_free request_id now (some owner) (some until) = ltb until now || str_eq owner request_id

-- what the UPDATE of a reservation does to the row
unfoldable pub take_lease : WriteRequest → StateWriteReceipt → StateWriteReceipt
unfolding lease_until
take_lease q r =
    if same_write q r && is_open r.status && is_free q.request_id q.now r.lease_owner r.lease_until
    then record r {
      status = pending;
      attempt_count = r.attempt_count + 1;
      lease_owner = some q.request_id;
      lease_until = some (lease_until q);
      updated_at = q.now;
    }
    else r

abbrev pub owned_by : String → Option String → Bool
owned_by request_id none = false
owned_by request_id (some owner) = str_eq owner request_id

-- the arguments of `finalizeStateWriteReceipt`
pub record Finish : Type 0 where
  pub status : StateReceiptStatus
  pub updated_at : ℕ
  pub comment_id : Option String
  pub comment_url : Option String
  pub last_error_code : Option StateGatewayErrorCode
  pub last_error_phase : Option StateGatewayPhase
  pub last_http_status : Option ℕ
  pub envelope_key : Option String
  pub event_count : Option ℕ

-- what the UPDATE that ends a write does to the row
unfoldable pub end_lease : String → Finish → StateWriteReceipt → StateWriteReceipt
end_lease request_id f r =
    if owned_by request_id r.lease_owner
    then record r {
      status = f.status;
      comment_id = f.comment_id;
      comment_url = f.comment_url;
      lease_owner = none;
      lease_until = none;
      updated_at = f.updated_at;
      last_error_code = f.last_error_code;
      last_error_phase = f.last_error_phase;
      last_http_status = f.last_http_status;
      envelope_key = f.envelope_key;
      event_count = f.event_count;
    }
    else r

module _ {R : Type 0} where
  abbrev pub on_receipts : (Table StateWriteReceipt → Table StateWriteReceipt) → Store R → Store R
  on_receipts f s = record s { receipts = f s.receipts }

  unfoldable pub get_state_write_receipt : String → Store R → Option StateWriteReceipt
  get_state_write_receipt write_key s = lookup write_key s.receipts

  unfoldable pub open_receipt : WriteRequest → Store R → Store R
  unfolding insert_or_ignore
  open_receipt q s = on_receipts (insert_or_ignore q.write_key (new_receipt q)) s

  unfoldable pub acquire_lease : WriteRequest → Store R → Store R
  unfolding update_row take_lease
  acquire_lease q s = on_receipts (update_row q.write_key (take_lease q)) s

  -- `reserveStateWrite`; the two failures are plain errors
  unfoldable pub reserve_state_write : WriteRequest → Prog (Store R) Reservation
  unfolding open_receipt acquire_lease get_state_write_receipt
  reserve_state_write q = do
    _ ← exec (open_receipt q)
    found ← select (get_state_write_receipt q.write_key)
    case_option found (fail invalid_value) λ receipt.
        when not (same_write q receipt)
        then done (record { acquired = false; receipt = record receipt { status = conflict } })
        else when is_settled receipt.status
        then done (record { acquired = false; receipt = receipt })
        else do
          _ ← exec (acquire_lease q)
          again ← select (get_state_write_receipt q.write_key)
          case_option again (fail invalid_value)
              λ r. done (record { acquired = owned_by q.request_id r.lease_owner; receipt = r })

  unfoldable pub close_receipt : (write_key request_id : String) → Finish → Store R → Store R
  unfolding update_row end_lease
  close_receipt write_key request_id f s =
      on_receipts (update_row write_key (end_lease request_id f)) s
