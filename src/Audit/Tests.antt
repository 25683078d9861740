-- ===== src/Audit/Tests.antt =====
-- The audit of runs (src/automation-run-ledger.ts) at concrete inputs.
use quantpro_collector.Prelude.{◌≡◌, refl, true, false, none, some, [], ◌∷◌, String}
use quantpro_collector.Json.{Json, null, bool}
use quantpro_collector.Db.Prog.{ok, alone, run, case_option, when◌then◌else◌, ◌>>=◌}
use quantpro_collector.Audit.Runs.{
  AutomationRunOutcome, completed, run_v2, StoredAutomationRun, AutomationRunEnd, BeginInput,
  EndInput, Schemas, Store, answered, refused, conflict, ended, update_run, read_run,
  end_automation_run, begin_automation_run,
}
use quantpro_collector.Audit.Events.{
  AutomationRunEvent, EventSchemas, EventInput, noted, record_automation_run_event, write_and_read,
  note_known, note_event,
}
use quantpro_collector.Audit.History.{History, end_automation_run-History}
use quantpro_collector.Audit.Twice.{end_automation_run_twice}

abbrev run_end : AutomationRunEnd
run_end = record {
  run_id = "run_00001";
  outcome = completed;
  fresh_delta_count = 3;
  notification_intended = true;
  reason = none;
}

abbrev other_end : AutomationRunEnd
other_end = record run_end { outcome = AutomationRunOutcome.failed }

abbrev digest : AutomationRunOutcome → String
digest AutomationRunOutcome.failed = "other"
digest _ = "first"

-- null asks for the first end, anything else for the other one
abbrev parse_end : Json → AutomationRunEnd
parse_end null = run_end
parse_end _ = other_end

abbrev schemas : Schemas
schemas = record {
  parse_begin = λ v.
      some (record { task = "company-facts"; invocation_key = some "key"; prompt_version = none });
  parse_end = λ v. some (parse_end v);
  sha256 = λ e. digest e.outcome;
}

abbrev open_run : StoredAutomationRun
open_run = record {
  task_name = "company-facts";
  run_id = "run_00001";
  principal = some "caller";
  invocation_key = some "key";
  scheduled_for = none;
  started_at = some 10;
  finished_at = none;
  outcome = none;
  fresh_delta_count = none;
  notification_intended = none;
  notification_sent_legacy = none;
  reason = none;
  prompt_version = none;
  collector_build_sha = none;
  cloudflare_version_id = none;
  source_contract = run_v2;
  legacy_trace_id = none;
  legacy_started_sha256 = none;
  legacy_final_sha256 = none;
  final_payload_sha256 = none;
  created_at = 10;
  updated_at = 10;
}

abbrev runs : Store
runs = open_run ∷ []

abbrev first : EndInput
first = record { end = null; now = 20 }

abbrev second : EndInput
second = record { end = bool true; now = 30 }

abbrev begin : BeginInput
begin = record {
  begin = null;
  principal = "caller";
  collector_build_sha = none;
  cloudflare_version_id = none;
  now = some 5;
  new_run_id = "run_00002";
}

abbrev final_event : AutomationRunEvent
final_event = record {
  task_name = "company-facts";
  run_id = "legacy_00001";
  is_final = true;
  status = some completed;
  scheduled_for = none;
  occurred_at = 15;
  notification_sent = some true;
  fresh_delta_count = some 2;
  blocker_code = none;
  trace_id = none;
  prompt_version = none;
  safe_summary = some "done";
}

abbrev event_schemas : EventSchemas
event_schemas = record { parse_event = λ v. some final_event; sha256 = λ v. "digest" }

abbrev event : EventInput
event = record { event = null; now = 16; collector_build_sha = none; cloudflare_version_id = none }

end_automation_run-History_example :
    History runs (run alone 0 (begin_automation_run schemas begin) runs).1
    × History runs (run alone 0 (end_automation_run schemas first) runs).1
    × History runs (run alone 0 (record_automation_run_event event_schemas event) runs).1
end_automation_run-History_example =
    end_automation_run-History schemas event_schemas alone begin first event runs (λ n s h. h)

-- the event is recorded, and its repetition is a replay
event_recorded :
    let out = run alone 0 (record_automation_run_event event_schemas event) runs in
    (out.0 ≡ ok (noted true "digest"))
    × ((run alone 0 (record_automation_run_event event_schemas event) out.1).0
        ≡ ok (noted false "digest"))
unfolding record_automation_run_event write_and_read note_known note_event run case_option
    when◌then◌else◌ ◌>>=◌
event_recorded = (refl, refl)

-- the second end has another outcome, and is refused
end_automation_run_twice_example :
    let q = ended run_end 20 "first" open_run in
    (run alone 0 (end_automation_run schemas first) runs ≡ (ok (answered true q), q ∷ []))
    × (run alone 0 (end_automation_run schemas second) (q ∷ []) ≡ (ok (refused conflict), q ∷ []))
unfolding read_run update_run
end_automation_run_twice_example =
    end_automation_run_twice schemas first second run_end other_end open_run runs refl refl refl
      refl refl refl
