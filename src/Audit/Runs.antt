-- ===== src/Audit/Runs.antt =====
-- `beginAutomationRun` and `endAutomationRun` of `src/automation-run-ledger.ts`. The schemas and the
-- digest are parameters. The `catch` around a call turns an access that fails into
-- AUTOMATION_RUN_UNAVAILABLE: here that is the `outage` of the program.
use quantpro_collector.Prelude.{
  ℕ, Bool, true, false, not, ◌&&◌, ◌||◌, Option, none, some, List, [], ◌∷◌, ◌++◌, map, String,
  str_eq, filter, any, find?, if◌then◌else◌,
}
use quantpro_collector.Json.{Json}
use quantpro_collector.Db.Prog.{
  Prog, done, select, exec, batch_result, case_option, when◌then◌else◌, ◌>>=◌,
}

pub data AutomationRunOutcome : Type 0 where
  completed silent blocked failed : AutomationRunOutcome

pub data SourceContract : Type 0 where
  run_v2 legacy_event_v1 : SourceContract

-- a row of the table of runs
pub record StoredAutomationRun : Type 0 where
  pub task_name : String
  pub run_id : String
  pub principal : Option String
  pub invocation_key : Option String
  pub scheduled_for : Option String
  pub started_at : Option ℕ
  pub finished_at : Option ℕ
  pub outcome : Option AutomationRunOutcome
  pub fresh_delta_count : Option ℕ
  pub notification_intended : Option Bool
  pub notification_sent_legacy : Option Bool
  pub reason : Option String
  pub prompt_version : Option String
  pub collector_build_sha : Option String
  pub cloudflare_version_id : Option String
  pub source_contract : SourceContract
  pub legacy_trace_id : Option String
  pub legacy_started_sha256 : Option String
  pub legacy_final_sha256 : Option String
  pub final_payload_sha256 : Option String
  pub created_at : ℕ
  pub updated_at : ℕ

pub record AutomationRunBegin : Type 0 where
  pub task : String
  pub invocation_key : Option String
  pub prompt_version : Option String

pub record AutomationRunEnd : Type 0 where
  pub run_id : String
  pub outcome : AutomationRunOutcome
  pub fresh_delta_count : ℕ
  pub notification_intended : Bool
  pub reason : Option String

pub record BeginInput : Type 0 where
  pub begin : Json
  pub principal : String
  pub collector_build_sha : Option String
  pub cloudflare_version_id : Option String
  -- `none` where `now` is no time
  pub now : Option ℕ
  pub new_run_id : String

pub record EndInput : Type 0 where
  pub end : Json
  pub now : ℕ

-- `parseBegin`, `parseEnd`, and the digest of the terminal values
pub record Schemas : Type 0 where
  pub parse_begin : Json → Option AutomationRunBegin
  pub parse_end : Json → Option AutomationRunEnd
  pub sha256 : AutomationRunEnd → String

pub data AutomationRunErrorCode : Type 0 where
  validation_failed unavailable not_found conflict : AutomationRunErrorCode

pub data AuditReply : Type 0 where
  -- RECORDED, or else IDEMPOTENT_REPLAY
  answered : (is_recorded : Bool) → StoredAutomationRun → AuditReply
  refused : AutomationRunErrorCode → AuditReply

abbrev pub Store : Type 0
Store = List StoredAutomationRun

abbrev pub is_v2 : SourceContract → Bool
is_v2 run_v2 = true
is_v2 legacy_event_v1 = false

abbrev pub has_id : (task id : String) → StoredAutomationRun → Bool
has_id task id r = str_eq r.task_name task && str_eq r.run_id id

abbrev pub holds_text : Option String → String → Bool
holds_text none s = false
holds_text (some t) s = str_eq t s

abbrev pub has_invocation : (principal task key : String) → StoredAutomationRun → Bool
has_invocation principal task key r =
    holds_text r.principal principal && str_eq r.task_name task && holds_text r.invocation_key key

-- `readRun`
unfoldable pub read_run : (task id : String) → Store → Option StoredAutomationRun
read_run task id s = find? (has_id task id) s

unfoldable pub read_invocation : (principal task key : String) → Store → Option StoredAutomationRun
read_invocation principal task key s = find? (has_invocation principal task key) s

abbrev pub begun_row : BeginInput → AutomationRunBegin → ℕ → StoredAutomationRun
begun_row i b now = record {
  task_name = b.task;
  run_id = i.new_run_id;
  principal = some i.principal;
  invocation_key = b.invocation_key;
  scheduled_for = none;
  started_at = some now;
  finished_at = none;
  outcome = none;
  fresh_delta_count = none;
  notification_intended = none;
  notification_sent_legacy = none;
  reason = none;
  prompt_version = b.prompt_version;
  collector_build_sha = i.collector_build_sha;
  cloudflare_version_id = i.cloudflare_version_id;
  source_contract = run_v2;
  legacy_trace_id = none;
  legacy_started_sha256 = none;
  legacy_final_sha256 = none;
  final_payload_sha256 = none;
  created_at = now;
  updated_at = now;
}

-- the unique index on the invocations
abbrev pub same_invocation : StoredAutomationRun → StoredAutomationRun → Bool
same_invocation r q = elim r.principal [
  | none ↦ false
  | some p ↦ elim r.invocation_key [ none ↦ false | some k ↦ has_invocation p r.task_name k q ]
]

abbrev pub collides : StoredAutomationRun → StoredAutomationRun → Bool
collides r q = has_id r.task_name r.run_id q || same_invocation r q

-- INSERT OR IGNORE
unfoldable pub insert_run : StoredAutomationRun → Store → Store
insert_run r s = if any (collides r) s then s else s ++ r ∷ []

unfoldable pub insert_begun :
    (principal : String) → Option String → StoredAutomationRun → Prog Store AuditReply
unfolding insert_run read_invocation
insert_begun principal key row = do
  inserted ← batch_result (λ s. some (insert_run row s)) (λ s. not (any (collides row) s))
  case_option inserted (done (refused unavailable)) λ fresh.
      when fresh
      then done (answered true row)
      else case_option key (done (refused unavailable)) λ k. do
        replay ← select (read_invocation principal row.task_name k)
        case_option replay (done (refused unavailable)) λ r. done (answered false r)

unfoldable pub begin_at : BeginInput → AutomationRunBegin → ℕ → Prog Store AuditReply
unfolding insert_begun
begin_at i b now =
    let insert = insert_begun i.principal b.invocation_key (begun_row i b now) in
    case_option b.invocation_key insert λ k. do
      existing ← select (read_invocation i.principal b.task k)
      case_option existing insert λ r. done (answered false r)

-- `beginAutomationRun`
unfoldable pub begin_automation_run : Schemas → BeginInput → Prog Store AuditReply
unfolding begin_at
begin_automation_run c i =
    case_option (c.parse_begin i.begin) (done (refused validation_failed))
      λ b. case_option i.now (done (refused validation_failed)) λ now. begin_at i b now

-- SET ... of the UPDATE
abbrev pub ended : AutomationRunEnd → ℕ → String → StoredAutomationRun → StoredAutomationRun
ended e now hash r = record r {
  finished_at = some now;
  outcome = some e.outcome;
  fresh_delta_count = some e.fresh_delta_count;
  notification_intended = some e.notification_intended;
  reason = e.reason;
  final_payload_sha256 = some hash;
  updated_at = now;
}

abbrev pub is_open : StoredAutomationRun → Bool
is_open r = is_v2 r.source_contract && elim r.final_payload_sha256 [ none ↦ true | some h ↦ false ]

-- WHERE task_name = ? AND run_id = ? AND source_contract = 'run-v2' AND the digest IS NULL
unfoldable pub end_row :
    (task id : String) → AutomationRunEnd → ℕ → String → StoredAutomationRun → StoredAutomationRun
end_row task id e now hash r = if has_id task id r && is_open r then ended e now hash r else r

unfoldable pub update_run : (task id : String) → AutomationRunEnd → ℕ → String → Store → Store
unfolding end_row
update_run task id e now hash s = map (end_row task id e now hash) s

abbrev pub final_reply :
    (is_recorded : Bool) → (hash stored : String) → StoredAutomationRun → AuditReply
final_reply recorded hash stored r =
    if str_eq stored hash then answered recorded r else refused conflict

abbrev finished_reply : String → Option StoredAutomationRun → AuditReply
finished_reply hash none = refused unavailable
finished_reply hash (some r) = elim r.final_payload_sha256 [
  | none ↦ refused unavailable
  | some stored ↦ final_reply true hash stored r
]

unfoldable pub finish_run :
    AutomationRunEnd → ℕ → (hash : String) → StoredAutomationRun → Prog Store AuditReply
unfolding update_run read_run
finish_run e now hash r = do
  _ ← exec (update_run r.task_name r.run_id e now hash)
  finished ← select (read_run r.task_name r.run_id)
  done (finished_reply hash finished)

unfoldable pub end_candidates :
    AutomationRunEnd → ℕ → (hash : String) → List StoredAutomationRun → Prog Store AuditReply
unfolding finish_run
end_candidates e now hash [] = done (refused not_found)
end_candidates e now hash (r ∷ []) =
    case_option r.final_payload_sha256 (finish_run e now hash r)
      λ stored. done (final_reply false hash stored r)
end_candidates e now hash (r ∷ (q ∷ rs)) = done (refused conflict)

abbrev pub is_candidate : String → StoredAutomationRun → Bool
is_candidate id r = str_eq r.run_id id && is_v2 r.source_contract

-- `endAutomationRun`
unfoldable pub end_automation_run : Schemas → EndInput → Prog Store AuditReply
unfolding end_candidates
end_automation_run c i = case_option (c.parse_end i.end) (done (refused validation_failed)) λ e. do
  candidates ← select (λ s. filter (is_candidate e.run_id) s)
  end_candidates e i.now (c.sha256 e) candidates
