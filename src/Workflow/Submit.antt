-- ===== src/Workflow/Submit.antt =====
-- `submitResearchResultProposal` of research-workflow.ts: the row and event writes, the race
-- resolution; the handler is its child.
pub mod Handler
use quantpro_collector.Prelude.{
  ℕ, Bool, true, false, not, ◌&&◌, ◌||◌, Option, none, some, List, [], ◌∷◌, ◌++◌, String, str_eq,
  leb, ◌==◌, any, if◌then◌else◌,
}
use quantpro_collector.Json.{Json}
use quantpro_collector.Db.Table.{insert, erase}
use quantpro_collector.Db.Prog.{
  Prog, done, fail, attempt, filtered, store_unavailable, integrity_failed, select, select_catch,
  exec, try_batch, case_option, when◌then◌else◌, ◌>>=◌, ◌>>◌,
}
use quantpro_collector.Workflow.Rows.{
  Store, LeaseRow, TerminalRow, ProposalRow, ProposalStatus, received, EventRow, EventType,
  EventReason, EventSubReason, ResearchOrigin, chatgpt, synthetic, replay, SubmitReason, conflict,
  second_result, lease_invalid, validation_failed, LeaseSubReason, no_lease, expired,
  owner_mismatch, generation_stale, SubmitOutcome, accepted, accepted_synthetic,
}
use quantpro_collector.Workflow.Input.{
  job_id_ok, idempotency_key_ok, is_formal_research_owner, declared_origin, generation_ok,
}
use quantpro_collector.Workflow.Tables.{
  Fresh, tagged, select_lease, select_terminal, terminal_matches_proposal, holds_lease,
  select_proposal_by_idempotency_key, add_event,
}
use quantpro_collector.Workflow.Canonical.{Platform, PreparedProposal, prepare_proposal}

abbrev pub is_chatgpt : ResearchOrigin → Bool
is_chatgpt chatgpt = true
is_chatgpt _ = false

abbrev pub is_received : ProposalStatus → Bool
is_received received = true
is_received _ = false

-- the rows of the partial unique index `research_proposals_one_formal`
abbrev pub is_formal : ProposalRow → Bool
is_formal p = is_chatgpt p.origin && is_received p.status

-- A row that the new one violates a constraint with: the primary key, the unique key, the index.
abbrev pub clashes : ProposalRow → ProposalRow → Bool
clashes p q =
    str_eq q.proposal_id p.proposal_id
    || str_eq q.idempotency_key p.idempotency_key
    || (is_formal p && is_formal q && str_eq q.job_id p.job_id)

unfoldable pub insert_proposal : ProposalRow → Store → Option Store
insert_proposal p s =
    if any (clashes p) s.proposals
    then none
    else some (record s { proposals = s.proposals ++ p ∷ [] })

-- `SELECT ... WHERE job_id=? AND origin='CHATGPT' AND status='RECEIVED'`
unfoldable pub has_formal : String → Store → Bool
has_formal job s = any (λ p. str_eq p.job_id job && is_formal p) s.proposals

-- `outcomeForExistingProposal`; `none` is CONFLICT
unfoldable pub outcome_for_existing : ProposalRow → String → PreparedProposal → Option SubmitOutcome
outcome_for_existing existing job prepared =
    if not (str_eq existing.payload_sha256 prepared.payload_sha256)
    then none
    else if is_received existing.status
    then some (SubmitOutcome.idempotent_replay job existing.proposal_id existing.created_at)
    else elim existing.reject_reason [
      | none ↦ some (SubmitOutcome.rejected job validation_failed none)
      | some reason ↦ some (SubmitOutcome.rejected job reason none)
    ]

-- The checks of the lease in their order; `none` when the caller holds it.
unfoldable pub lease_sub_reason : String → ℕ → ℕ → Option LeaseRow → Option LeaseSubReason
lease_sub_reason owner generation now none = some no_lease
lease_sub_reason owner generation now (some l) =
    if leb l.lease_expires_at now
    then some expired
    else if not (str_eq l.lease_owner owner)
    then some owner_mismatch
    else if not (l.claim_count == generation)
    then some generation_stale
    else none

pub record SubmitInput : Type 0 where
  pub job_id : String
  pub expected_generation : Option ℕ
  pub idempotency_key : String
  pub origin : Option String
  pub proposal : Json
  pub caller_principal : String
  pub request_id : String
  pub now : Option ℕ
  pub fresh : Fresh

-- The origin that is stored: what is not a formal owner files no formal result.
unfoldable pub effective_origin : String → ResearchOrigin → ResearchOrigin
effective_origin caller declared =
    if not (is_formal_research_owner caller) && is_chatgpt declared then synthetic else declared

unfoldable pub production_origin_violation : String → ResearchOrigin → Bool
production_origin_violation caller declared =
    is_formal_research_owner caller && not (is_chatgpt declared)

-- the internal tag of a structural rejection
abbrev pub or_tag : Option String → String → String
or_tag none d = d
or_tag (some e) d = e

unfoldable pub structure_tag : Bool → PreparedProposal → Option String
structure_tag violation p =
    if violation
    then some "origin_not_chatgpt"
    else if p.oversize
    then some (or_tag p.structure_error "oversize")
    else p.structure_error

module _ (i : SubmitInput) (now : ℕ) (prepared : PreparedProposal) where
  abbrev pub submit_proposal_id : String
  submit_proposal_id = tagged "prp_" (i.fresh 0)

  abbrev pub proposal_row : ResearchOrigin → ProposalStatus → Option SubmitReason → ProposalRow
  proposal_row origin status reason = record {
    proposal_id = submit_proposal_id;
    job_id = i.job_id;
    idempotency_key = i.idempotency_key;
    caller_principal = i.caller_principal;
    origin = origin;
    status = status;
    reject_reason = reason;
    payload_json = prepared.payload_json;
    payload_sha256 = prepared.payload_sha256;
    created_at = now;
    request_id = i.request_id;
  }

  abbrev pub submit_event :
      ℕ
      → EventType
      → String
      → Option ResearchOrigin
      → Option EventReason
      → Option EventSubReason
      → EventRow
  submit_event n kind proposal origin reason sub = record {
    event_id = tagged "evt_" (i.fresh n);
    job_id = i.job_id;
    event_type = kind;
    actor = i.caller_principal;
    proposal_id = some proposal;
    origin = origin;
    reason = reason;
    sub_reason = sub;
    request_id = i.request_id;
    created_at = now;
  }

  -- `writeConflictEvent`
  unfoldable pub conflict_event : String → Store → Store
  unfolding add_event
  conflict_event existing = add_event (
      submit_event 4 EventType.submit_conflict existing none (some (EventReason.submit conflict))
        none)

  -- `resolveProposalRace`
  unfoldable pub resolve_race : Prog Store (Option SubmitOutcome)
  resolve_race = do
    found ← select_catch (select_proposal_by_idempotency_key i.idempotency_key) none
    case_option found (done none) λ e.
        case_option (outcome_for_existing e i.job_id prepared)
          (do
            written ← try_batch (λ s. some (conflict_event e.proposal_id s))
            when written
                then done (some (SubmitOutcome.rejected i.job_id conflict none))
                else fail store_unavailable)
          (λ verdict. done (some verdict))

  -- `runProposalBatch`
  unfoldable pub run_proposal_batch : (Store → Option Store) → Prog Store (Option SubmitOutcome)
  run_proposal_batch batch = do
    committed ← try_batch batch
    when committed then done none else resolve_race

  -- a stored rejection with its event
  unfoldable pub reject_batch :
      ResearchOrigin → SubmitReason → Option EventSubReason → Store → Option Store
  unfolding insert_proposal add_event
  reject_batch origin reason sub s =
      elim (insert_proposal (proposal_row origin ProposalStatus.rejected (some reason)) s) [
        | none ↦ none
        | some s' ↦ some (
            add_event
              (submit_event 1 EventType.submit_rejected submit_proposal_id (some origin)
                (some (EventReason.submit reason)) sub)
              s')
      ]

  unfoldable pub reject_with :
      ResearchOrigin
      → SubmitReason
      → Option EventSubReason
      → Option LeaseSubReason
      → Prog Store SubmitOutcome
  reject_with origin reason sub detail = do
    outcome ← run_proposal_batch (reject_batch origin reason sub)
    case_option outcome (done (SubmitOutcome.rejected i.job_id reason detail)) done

  -- the batch of a synthetic result: the lease is released whoever holds it
  unfoldable pub synthetic_batch : ResearchOrigin → Store → Option Store
  unfolding insert_proposal add_event
  synthetic_batch origin s = elim (insert_proposal (proposal_row origin received none) s) [
    | none ↦ none
    | some s' ↦ some (
        add_event
          (submit_event 1 EventType.submit_received submit_proposal_id (some origin) none none)
          (record s' { leases = erase i.job_id s'.leases }))
  ]

  module _ (generation : ℕ) where
    -- the lease predicate that every formal write repeats
    unfoldable pub may_complete : Store → Bool
    unfolding holds_lease select_terminal
    may_complete s =
        holds_lease i.job_id i.caller_principal generation now s && not (select_terminal i.job_id s)

    -- statement 1 of the formal batch
    unfoldable pub insert_formal : Store → Option Store
    unfolding insert_proposal may_complete
    insert_formal s =
        if may_complete s then insert_proposal (proposal_row chatgpt received none) s else some s

    -- statement 2
    unfoldable pub insert_terminal : Store → Store
    unfolding may_complete
    insert_terminal s =
        if may_complete s
        then record s {
          terminals =
              insert i.job_id (record { proposal_id = submit_proposal_id; completed_at = now })
                s.terminals;
        }
        else s

    -- statement 3
    unfoldable pub release_lease : Store → Store
    unfolding holds_lease
    release_lease s =
        if holds_lease i.job_id i.caller_principal generation now s
        then record s { leases = erase i.job_id s.leases }
        else s

    -- statements 4 and 5
    unfoldable pub note_completion : ℕ → EventType → Store → Store
    unfolding add_event terminal_matches_proposal
    note_completion n kind s =
        if terminal_matches_proposal i.job_id submit_proposal_id s
        then add_event (submit_event n kind submit_proposal_id (some chatgpt) none none) s
        else s

    unfoldable pub formal_batch : Store → Option Store
    unfolding insert_formal insert_terminal release_lease note_completion
    formal_batch s = elim (insert_formal s) [
      | none ↦ none
      | some s' ↦ some (
          note_completion 3 EventType.completed
            (note_completion 2 EventType.submit_received (release_lease (insert_terminal s'))))
    ]
