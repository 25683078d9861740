-- ===== src/Workflow/Tests.antt =====
-- Runs of the work queue (src/research-workflow.ts) on small tables.
pub mod Cursor
pub mod Defer
pub mod Receipts
use quantpro_collector.Prelude.{◌≡◌, refl, true, false, none, some, List, [], ◌∷◌, String, arith}
use quantpro_collector.Json.{Json, str, obj, arr, nil, field, end}
use quantpro_collector.Db.Table.{lookup, erase}
use quantpro_collector.Db.Prog.{ok, alone, run}
use quantpro_collector.Db.Prog.Ensures.{Holds}
use quantpro_collector.Workflow.Rows.{
  EventType, Store, LeaseRow, ProposalRow, received, synthetic, ClaimOutcome, SubmitOutcome,
}
use quantpro_collector.Workflow.Tables.{
  is_public, select_deferral, add_event, Fresh, select_lease, select_terminal, holds_lease,
  is_claimable, select_proposal_by_idempotency_key,
}
use quantpro_collector.Workflow.Input.{job_id_ok}
use quantpro_collector.Workflow.Canonical.{Platform, PreparedProposal}
use quantpro_collector.Workflow.Claim.{ClaimInput, claim_batch, claim_research_job}
use quantpro_collector.Workflow.Submit.{
  proposal_row, submit_event, insert_proposal, SubmitInput, has_formal, formal_batch,
  synthetic_batch, outcome_for_existing,
}
use quantpro_collector.Workflow.Submit.Handler.{
  accept_synthetic, submit_from, submit_research_result_proposal,
}
use quantpro_collector.Workflow.Lifecycle.{Reach}
use quantpro_collector.Workflow.Safety.Request.{Request, handle}
use quantpro_collector.Workflow.Safety.Consistent.{IsConsistent}
use quantpro_collector.Workflow.Safety.Calls.{handle-Reach, handle-IsConsistent}
use quantpro_collector.Workflow.Safety.History.{Continues, handle-Continues}
use quantpro_collector.Workflow.Behaviour.Claim.{claim_batch-lease}
use quantpro_collector.Workflow.Behaviour.ClaimAlone.{
  claim_outcome, phase, claim_research_job-alone,
}
use quantpro_collector.Workflow.Behaviour.Submit.{
  submit_from-replay, formal_batch-fenced, synthetic_batch-unfenced, accept_synthetic-lost,
}
use quantpro_collector.Workflow.Behaviour.Accepted.{
  recorded, submit_research_result_proposal-recorded,
}
use quantpro_collector.Workflow.Behaviour.Claimed.{leased, claim_research_job-leased}

-- a platform that hashes a text to itself
abbrev platform : Platform
platform = record {
  date_parse = λ s. some 7;
  stringify = λ v. "text";
  sha256 = λ s. s;
  payload_safe = λ v. true;
}

abbrev fresh : Fresh
fresh n = "id"

abbrev claim_input : ClaimInput
claim_input = record {
  job_id = "job";
  lease_owner = "worker";
  request_id = "request";
  now = some 100;
  fresh = fresh;
}

abbrev submit_input : SubmitInput
submit_input = record {
  job_id = "job";
  expected_generation = some 2;
  idempotency_key = "key-00001";
  origin = some "SYNTHETIC";
  proposal = str "proposal";
  caller_principal = "worker";
  request_id = "request";
  now = some 100;
  fresh = fresh;
}

abbrev prepared : PreparedProposal
prepared = record {
  payload_json = "{}";
  payload_sha256 = "hash";
  oversize = false;
  structure_error = none;
}

-- another worker's lease, of generation 3, that is still live
abbrev other_lease : LeaseRow
other_lease = record {
  lease_owner = "other";
  claim_token = "token";
  claimed_at = 50;
  lease_expires_at = 3_600_050;
  claim_count = 3;
}

abbrev stored : ProposalRow
stored = record {
  proposal_id = "prp_old";
  job_id = "job";
  idempotency_key = "key-00001";
  caller_principal = "worker";
  origin = synthetic;
  status = received;
  reject_reason = none;
  payload_json = "{}";
  payload_sha256 = "hash";
  created_at = 40;
  request_id = "request";
}

-- one public job, with the given leases and proposals
abbrev tables : List (String × LeaseRow) → List ProposalRow → Store
tables leases proposals = record {
  public_jobs = "job" ∷ [];
  leases = leases;
  terminals = [];
  deferrals = [];
  proposals = proposals;
  events = [];
}

abbrev idle : Store
idle = tables [] []

abbrev taken : Store
taken = tables (("job", other_lease) ∷ []) []

idle-IsConsistent : IsConsistent idle
unfolding select_terminal select_lease has_formal lookup
idle-IsConsistent = record {
  settled = λ j e. refl;
  formal = λ j. refl;
  leased = λ j l e. absurd (ground arith);
}

handle-IsConsistent_example :
    IsConsistent (run alone 0 (handle platform (λ n. "iso") (Request.claim claim_input)) idle).1
handle-IsConsistent_example =
    handle-IsConsistent platform (λ n. "iso") alone (Request.claim claim_input) idle (λ n s p. p)
      idle-IsConsistent

handle-Reach_example :
    Reach taken (run alone 0 (handle platform (λ n. "iso") (Request.submit submit_input)) taken).1
handle-Reach_example =
    handle-Reach platform (λ n. "iso") alone (Request.submit submit_input) taken (λ n s p. p)

handle-Continues_example :
    Continues taken (run alone 0 (handle platform (λ n. "iso") (Request.claim claim_input)) taken).1
handle-Continues_example =
    handle-Continues platform (λ n. "iso") alone (Request.claim claim_input) taken (λ n s p. p)

-- a formal result of the worker whose lease, of generation 3, is live
abbrev result : Json
result = obj (
    field "job_id" (str "job") (
      field "summary" (str "summary") (
        field "findings" (arr nil) (
          field "recommendation_hint" (str "NONE")
            (field "sources_consulted" (arr nil) (field "completed_at" (str "now") end))))))

abbrev owner : String
owner = "oauth-client:0123456789abcdef0123456789abcdef0123456789abcdef0123456789abcdef"

abbrev owned : Store
owned = tables (("job", record other_lease { lease_owner = owner }) ∷ []) []

abbrev formal_input : SubmitInput
formal_input = record submit_input {
  expected_generation = some 3;
  origin = some "CHATGPT";
  proposal = result;
  caller_principal = owner;
}

-- the result is accepted
submit_research_result_proposal-recorded_example :
    Holds
      (λ o t. recorded o t ≡ true)
      (run alone 0 (submit_research_result_proposal platform formal_input) owned)
submit_research_result_proposal-recorded_example =
    submit_research_result_proposal-recorded platform alone formal_input owned

claim_research_job-leased_example :
    Holds (λ o t. leased "worker" o t ≡ true) (run alone 0 (claim_research_job claim_input) idle)
claim_research_job-leased_example = claim_research_job-leased alone claim_input idle

claim_research_job-alone_example :
    (run alone 0 (claim_research_job claim_input) idle).0
    ≡ ok (ClaimOutcome.claimed "job" "worker" 100 3_600_100 1)
unfolding job_id_ok claim_outcome phase select_lease select_terminal is_public lookup
    select_deferral
claim_research_job-alone_example = claim_research_job-alone claim_input idle

claim_batch-lease_example :
    select_lease "job" (claim_batch claim_input 100 "e" "t" "f" taken) ≡ some other_lease
unfolding select_lease is_claimable lookup
claim_batch-lease_example = claim_batch-lease claim_input 100 "e" "t" "f" "job" taken

formal_batch-fenced_example :
    (taken.proposals ≡ taken.proposals)
    × (taken.terminals ≡ taken.terminals)
    × (taken.leases ≡ taken.leases)
unfolding holds_lease formal_batch lookup
formal_batch-fenced_example = formal_batch-fenced submit_input 100 prepared 2 taken taken refl refl

-- the tables after a synthetic result of a worker whose lease the other one has taken over
abbrev released : Store
released = record {
  public_jobs = "job" ∷ [];
  leases = [];
  terminals = [];
  deferrals = [];
  proposals = proposal_row submit_input 100 prepared synthetic received none ∷ [];
  events =
      submit_event submit_input 100 prepared 1 EventType.submit_received "prp_id" (some synthetic)
        none none
      ∷ [];
}

synthetic_batch-unfenced_example : select_lease "job" released ≡ none
unfolding synthetic_batch erase add_event insert_proposal
synthetic_batch-unfenced_example =
    synthetic_batch-unfenced submit_input 100 prepared synthetic taken released refl

accept_synthetic-lost_example :
    run
      (record { others = λ n s. s; down = λ n. true })
      0
      (accept_synthetic submit_input 100 prepared synthetic)
      idle
    ≡ (ok (SubmitOutcome.accepted_synthetic "job" "prp_id"), idle)
accept_synthetic-lost_example =
    accept_synthetic-lost submit_input 100 prepared (λ n s. s) 0 synthetic idle
