-- ===== src/Audit/Events.antt =====
-- `recordAutomationRunEvent` of `src/automation-run-ledger.ts`: the older events of a run. A time
-- that the caller gives is its instant; a text that is no time is refused by the schema.
use quantpro_collector.Prelude.{
  ℕ, Bool, true, false, not, ◌&&◌, ◌||◌, Option, none, some, String, str_eq, map, any,
  if◌then◌else◌,
}
use quantpro_collector.Json.{Json}
use quantpro_collector.Db.Prog.{
  Prog, done, select, batch_result, case_option, when◌then◌else◌, ◌>>=◌,
}
use quantpro_collector.Audit.Runs.{
  AutomationRunOutcome, blocked, failed, legacy_event_v1, StoredAutomationRun,
  AutomationRunErrorCode, validation_failed, unavailable, conflict, Store, is_v2, has_id, read_run,
  insert_run, collides,
}

-- an event that the schema accepts; a status is `none` for STARTED
pub record AutomationRunEvent : Type 0 where
  pub task_name : String
  pub run_id : String
  pub is_final : Bool
  pub status : Option AutomationRunOutcome
  pub scheduled_for : Option String
  pub occurred_at : ℕ
  pub notification_sent : Option Bool
  pub fresh_delta_count : Option ℕ
  pub blocker_code : Option String
  pub trace_id : Option String
  pub prompt_version : Option String
  pub safe_summary : Option String

pub record EventInput : Type 0 where
  pub event : Json
  pub now : ℕ
  pub collector_build_sha : Option String
  pub cloudflare_version_id : Option String

pub record EventSchemas : Type 0 where
  pub parse_event : Json → Option AutomationRunEvent
  -- the digest of the event with its missing fields as null
  pub sha256 : Json → String

pub data EventReply : Type 0 where
  -- RECORDED, or else IDEMPOTENT_REPLAY, with the digest
  noted : (is_recorded : Bool) → String → EventReply
  refused : AutomationRunErrorCode → EventReply

abbrev pub is_some : {A : Type 0} → Option A → Bool
is_some none = false
is_some (some a) = true

abbrev needs_blocker : Option AutomationRunOutcome → Bool
needs_blocker (some blocked) = true
needs_blocker (some failed) = true
needs_blocker _ = false

-- the checks of `parseLegacyEvent` behind the schema
unfoldable pub is_legacy_event : AutomationRunEvent → Bool
is_legacy_event e =
    if e.is_final
    then is_some e.status
      && is_some e.notification_sent
      && is_some e.fresh_delta_count
      && (not (needs_blocker e.status) || is_some e.blocker_code)
      && is_some e.safe_summary
    else not (is_some e.status)
      && not (is_some e.notification_sent)
      && not (is_some e.fresh_delta_count)
      && not (is_some e.blocker_code)

abbrev pub event_hash : AutomationRunEvent → StoredAutomationRun → Option String
event_hash e r = if e.is_final then r.legacy_final_sha256 else r.legacy_started_sha256

abbrev pub coalesce : {A : Type 0} → Option A → Option A → Option A
coalesce none o = o
coalesce (some a) o = some a

abbrev only : {A : Type 0} → Bool → Option A → Option A
only true o = o
only false o = none

module _ (i : EventInput) (e : AutomationRunEvent) (hash : String) where
  abbrev pub event_row : StoredAutomationRun
  event_row = record {
    task_name = e.task_name;
    run_id = e.run_id;
    principal = none;
    invocation_key = none;
    scheduled_for = e.scheduled_for;
    started_at = only (not e.is_final) (some e.occurred_at);
    finished_at = only e.is_final (some e.occurred_at);
    outcome = only e.is_final e.status;
    fresh_delta_count = only e.is_final e.fresh_delta_count;
    notification_intended = none;
    notification_sent_legacy = only e.is_final e.notification_sent;
    reason = only e.is_final (coalesce e.blocker_code e.safe_summary);
    prompt_version = e.prompt_version;
    collector_build_sha = i.collector_build_sha;
    cloudflare_version_id = i.cloudflare_version_id;
    source_contract = legacy_event_v1;
    legacy_trace_id = e.trace_id;
    legacy_started_sha256 = only (not e.is_final) (some hash);
    legacy_final_sha256 = only e.is_final (some hash);
    final_payload_sha256 = none;
    created_at = i.now;
    updated_at = i.now;
  }

  abbrev pub started : StoredAutomationRun → StoredAutomationRun
  started r = record r {
    scheduled_for = coalesce r.scheduled_for e.scheduled_for;
    started_at = coalesce r.started_at (some e.occurred_at);
    prompt_version = coalesce r.prompt_version e.prompt_version;
    collector_build_sha = coalesce r.collector_build_sha i.collector_build_sha;
    cloudflare_version_id = coalesce r.cloudflare_version_id i.cloudflare_version_id;
    legacy_trace_id = coalesce r.legacy_trace_id e.trace_id;
    legacy_started_sha256 = some hash;
    updated_at = i.now;
  }

  abbrev is_true : Option Bool → Bool
  is_true none = false
  is_true (some b) = b

  abbrev pub finished : StoredAutomationRun → StoredAutomationRun
  finished r = record r {
    scheduled_for = coalesce r.scheduled_for e.scheduled_for;
    finished_at = some e.occurred_at;
    outcome = e.status;
    fresh_delta_count = e.fresh_delta_count;
    notification_sent_legacy = some (is_true e.notification_sent);
    reason = coalesce e.blocker_code e.safe_summary;
    prompt_version = coalesce e.prompt_version r.prompt_version;
    collector_build_sha = coalesce i.collector_build_sha r.collector_build_sha;
    cloudflare_version_id = coalesce i.cloudflare_version_id r.cloudflare_version_id;
    legacy_trace_id = coalesce e.trace_id r.legacy_trace_id;
    legacy_final_sha256 = some hash;
    updated_at = i.now;
  }

  -- WHERE ... AND source_contract = 'legacy-event-v1' AND the digest IS NULL
  abbrev pub is_target : StoredAutomationRun → Bool
  is_target r =
      has_id e.task_name e.run_id r
      && not (is_v2 r.source_contract)
      && not (is_some (event_hash e r))

  unfoldable pub note_row : StoredAutomationRun → StoredAutomationRun
  note_row r = if is_target r then (if e.is_final then finished r else started r) else r

  unfoldable pub note_event : Store → Store
  unfolding note_row
  note_event s = map note_row s

  -- the INSERT OR IGNORE of a run that was not there, or the UPDATE; true if a row changed
  abbrev pub write_event : Bool → Prog Store (Option Bool)
  write_event true =
      batch_result (λ s. some (insert_run event_row s)) (λ s. not (any (collides event_row) s))
  write_event false = batch_result (λ s. some (note_event s)) (λ s. any is_target s)

  abbrev pub persisted_reply : Bool → Option String → EventReply
  persisted_reply recorded none = refused unavailable
  persisted_reply recorded (some h) =
      if str_eq h hash then noted recorded hash else refused conflict

  abbrev hash_of : Option StoredAutomationRun → Option String
  hash_of none = none
  hash_of (some r) = event_hash e r

  unfoldable pub write_and_read : (is_new : Bool) → Prog Store EventReply
  unfolding note_event insert_run read_run
  write_and_read is_new = do
    written ← write_event is_new
    case_option written (done (refused unavailable)) λ recorded. do
      again ← select (read_run e.task_name e.run_id)
      done (persisted_reply recorded (hash_of again))

  unfoldable pub note_known : StoredAutomationRun → Prog Store EventReply
  unfolding write_and_read
  note_known r =
      when is_v2 r.source_contract
      then done (refused conflict)
      else case_option (event_hash e r) (write_and_read false)
          λ h. done (if str_eq h hash then noted false hash else refused conflict)

-- `recordAutomationRunEvent`
unfoldable pub record_automation_run_event : EventSchemas → EventInput → Prog Store EventReply
unfolding note_known write_and_read read_run is_legacy_event
record_automation_run_event c i =
    case_option (c.parse_event i.event) (done (refused validation_failed)) λ e.
      when not (is_legacy_event e) then done (refused validation_failed) else do
        existing ← select (read_run e.task_name e.run_id)
        case_option existing (write_and_read i e (c.sha256 i.event) true)
            (note_known i e (c.sha256 i.event))
