-- ===== src/Workflow/Rows.antt =====
-- research-workflow.ts: the closed sets, the rows of the tables (migrations 0003, 0005 and 0006)
-- and the outcomes. An instant is its milliseconds since the epoch: the normalised ISO texts that
-- the code compares are ordered as these numbers are.
use quantpro_collector.Prelude.{ℕ, Option, List, String}
use quantpro_collector.Db.Table.{Table}

pub data ClaimReason : Type 0 where
  not_found terminal deferred : ClaimReason

pub data SubmitReason : Type 0 where
  conflict second_result lease_invalid validation_failed : SubmitReason

pub data LeaseSubReason : Type 0 where
  no_lease expired owner_mismatch generation_stale : LeaseSubReason

pub data ResearchOrigin : Type 0 where
  chatgpt synthetic replay : ResearchOrigin

pub data DeferReason : Type 0 where
  recheck_required upstream_unavailable needs_owner_input : DeferReason

pub data EventType : Type 0 where
  claimed claim_denied lease_expired submit_received submit_rejected submit_conflict completed :
      EventType

pub record LeaseRow : Type 0 where
  pub lease_owner : String
  pub claim_token : String
  pub claimed_at : ℕ
  pub lease_expires_at : ℕ
  pub claim_count : ℕ

pub record TerminalRow : Type 0 where
  pub proposal_id : String
  pub completed_at : ℕ

pub record DeferralRow : Type 0 where
  pub idempotency_key : String
  pub lease_owner : String
  pub reason : DeferReason
  pub recheck_at : ℕ
  pub deferred_at : ℕ
  pub request_id : String
  pub payload_sha256 : Option String
  pub expected_generation : ℕ

pub data ProposalStatus : Type 0 where
  received rejected : ProposalStatus

pub record ProposalRow : Type 0 where
  pub proposal_id : String
  pub job_id : String
  pub idempotency_key : String
  pub caller_principal : String
  pub origin : ResearchOrigin
  pub status : ProposalStatus
  pub reject_reason : Option SubmitReason
  pub payload_json : String
  pub payload_sha256 : String
  pub created_at : ℕ
  pub request_id : String

-- The detail of an event: a reason of the closed sets, and a lease sub-reason or structure tag.
pub data EventReason : Type 0 where
  claim : ClaimReason → EventReason
  submit : SubmitReason → EventReason

pub data EventSubReason : Type 0 where
  lease : LeaseSubReason → EventSubReason
  structure : String → EventSubReason

pub record EventRow : Type 0 where
  pub event_id : String
  pub job_id : String
  pub event_type : EventType
  pub actor : String
  pub proposal_id : Option String
  pub origin : Option ResearchOrigin
  pub reason : Option EventReason
  pub sub_reason : Option EventSubReason
  pub request_id : String
  pub created_at : ℕ

-- The tables that the module reads and writes. Of `research_records` only the PUBLIC job keys
-- matter here; another part of the collector writes them.
pub record Store : Type 0 where
  pub public_jobs : List String
  pub leases : Table LeaseRow
  pub terminals : Table TerminalRow
  pub deferrals : Table DeferralRow
  pub proposals : List ProposalRow
  pub events : List EventRow

pub data ClaimOutcome : Type 0 where
  claimed :
      (job_id lease_owner : String) (claimed_at lease_expires_at claim_count : ℕ) → ClaimOutcome
  already_claimed : (job_id lease_owner : String) (lease_expires_at : ℕ) → ClaimOutcome
  not_claimable : (job_id : String) → ClaimReason → ClaimOutcome

pub data SubmitOutcome : Type 0 where
  accepted accepted_synthetic : (job_id proposal_id : String) → SubmitOutcome
  idempotent_replay : (job_id proposal_id : String) (original_created_at : ℕ) → SubmitOutcome
  rejected : (job_id : String) → SubmitReason → Option LeaseSubReason → SubmitOutcome

pub data CurrentStatus : Type 0 where
  deferred claimed completed queued : CurrentStatus

pub data DeferOutcome : Type 0 where
  deferred : (job_id : String) (recheck_at : ℕ) → DeferOutcome
  idempotent_replay : (job_id : String) (recheck_at : ℕ) → CurrentStatus → DeferOutcome
  rejected : (job_id : String) → SubmitReason → Option LeaseSubReason → DeferOutcome
