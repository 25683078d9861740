-- ===== src/State/Batch.antt =====
-- `validateStateBatch` of `src/state-gateway.ts`. The schemas, the hash and the two ledgers' own
-- functions are parameters.
use quantpro_collector.Prelude.{
  Bool, not, ◌&&◌, Option, none, some, List, String, str_eq, if◌then◌else◌, ◌⊎◌, inl, inr,
}
use quantpro_collector.Json.{Json}
use quantpro_collector.Db.Prog.{when◌then◌else◌}
use quantpro_collector.State.Errors.{
  StateGatewayErrorCode, MarketErrorCode, InvestmentErrorCode, gateway, refusal,
  checkpoint_conflict, checkpoint_chain_mismatch, ledger_event_id_conflict, state_conflict,
  state_chain_mismatch, state_validation_failed,
}
use quantpro_collector.State.Receipts.{StateWriteChannel, market}
use quantpro_collector.State.Close.{CloseEvent, Answer, answer, thrown, LedgerReads}

-- a batch that its schema accepts; `trading_date` is the first ten characters of its `as_of`
pub record MarketCheckpoint : Type 0 where
  pub prompt_id : String
  pub producer : String
  pub source_task : String
  pub idempotency_key : String
  pub content : Json

pub record LedgerBatch : Type 0 where
  pub event_id : String
  pub trading_date : String
  pub events : List CloseEvent
  pub content : Json

pub data InvestmentLedgerRole : Type 0 where
  industry company close : InvestmentLedgerRole

abbrev pub Checked : Type 0
Checked = MarketCheckpoint ⊎ (InvestmentLedgerRole × LedgerBatch)

-- what an append to a ledger answers
pub record Appended : Type 0 where
  pub is_new : Bool
  pub comment_id : String
  pub url : String

-- the schemas and the ledgers: `validateCheckpointRelations` and `validateRoleSemantics` answer
-- the error that they throw, the appends also the ledger that they leave
pub record Ledgers (R : Type 0) : Type 0 where
  pub parse_checkpoint : Json → Option MarketCheckpoint
  pub checkpoint_relations : MarketCheckpoint → Option MarketErrorCode
  pub parse_batch : Json → Option LedgerBatch
  pub role_semantics : InvestmentLedgerRole → LedgerBatch → Option InvestmentErrorCode
  pub sha256 : Json → String
  pub reads : LedgerReads R
  pub append : Checked → R → Answer Appended × R

-- `roleForChannel`
abbrev pub role_for_channel : StateWriteChannel → Option InvestmentLedgerRole
role_for_channel market = none
role_for_channel StateWriteChannel.industry = some InvestmentLedgerRole.industry
role_for_channel StateWriteChannel.company = some InvestmentLedgerRole.company
role_for_channel StateWriteChannel.close = some InvestmentLedgerRole.close

-- the codes of a validation that a ledger's module refuses
abbrev pub relation_error : MarketErrorCode → StateGatewayErrorCode
relation_error checkpoint_chain_mismatch = state_chain_mismatch
relation_error checkpoint_conflict = state_conflict
relation_error _ = state_validation_failed

abbrev pub semantics_error : InvestmentErrorCode → StateGatewayErrorCode
semantics_error ledger_event_id_conflict = state_conflict
semantics_error _ = state_validation_failed

pub record ValidatedStateBatch : Type 0 where
  pub write_key : String
  pub payload_sha256 : String
  pub checked : Checked

module _ {R : Type 0} (l : Ledgers R) where
  abbrev pub fixed_producer : MarketCheckpoint → Bool
  fixed_producer c =
      str_eq c.prompt_id "holding-assistant"
      && str_eq c.producer "holding-assistant"
      && str_eq c.source_task "持仓助手"

  abbrev invalid : {A : Type 0} → StateGatewayErrorCode → Answer A
  invalid code = thrown (gateway (refusal code))

  abbrev checkpoint_batch : MarketCheckpoint → Answer ValidatedStateBatch
  checkpoint_batch c = elim (l.checkpoint_relations c) [
    | some code ↦ invalid (relation_error code)
    | none ↦
        if not (fixed_producer c)
        then invalid state_validation_failed
        else answer (record {
          write_key = c.idempotency_key;
          payload_sha256 = l.sha256 c.content;
          checked = inl c;
        })
  ]

  abbrev role_batch : InvestmentLedgerRole → LedgerBatch → Answer ValidatedStateBatch
  role_batch role b = elim (l.role_semantics role b) [
    | some code ↦ invalid (semantics_error code)
    | none ↦ answer (record {
      write_key = b.event_id;
      payload_sha256 = l.sha256 b.content;
      checked = inr (role, b);
    })
  ]

  -- `validateStateBatch`
  unfoldable pub validate_state_batch : StateWriteChannel → Json → Answer ValidatedStateBatch
  validate_state_batch channel batch = elim (role_for_channel channel) [
    | none ↦ elim (l.parse_checkpoint batch) [
      | none ↦ invalid state_validation_failed
      | some c ↦ checkpoint_batch c
    ]
    | some role ↦ elim (l.parse_batch batch) [
      | none ↦ invalid state_validation_failed
      | some b ↦ role_batch role b
    ]
  ]
