-- ===== src/Runs/Rows.antt =====
-- The rows of `automation_runs_v3` and the statements of `src/run-envelope.ts` on them. The
-- tables are there: their creation is left out.
use quantpro_collector.Prelude.{
  ℕ, Bool, true, false, ◌&&◌, Option, none, some, List, [], ◌∷◌, ◌++◌, map, String, str_eq, any,
  find?, if◌then◌else◌,
}
use quantpro_collector.State.Receipts.{StateWriteChannel}

pub data RunEnvelopeOutcome : Type 0 where
  completed silent blocked failed unknown : RunEnvelopeOutcome

-- `StoredRunV3Row`, and the columns that no answer shows; a slot is always NULL
pub record StoredRun : Type 0 where
  pub task_name : String
  pub run_id : String
  pub envelope_key : String
  pub channel : Option StateWriteChannel
  pub write_key : Option String
  pub as_of : Option String
  pub received_at : ℕ
  pub fresh_delta_count : Option ℕ
  pub event_count : Option ℕ
  pub outcome : RunEnvelopeOutcome
  pub blocker_code : Option String
  pub summary : Option String
  pub prompt_version : Option String
  pub collector_build_sha : Option String
  pub cloudflare_version_id : Option String
  pub created_at : ℕ
  pub updated_at : ℕ

-- the runs, and what the commands of a run work on
pub record RunStore (R : Type 0) : Type 0 where
  pub runs : List StoredRun
  pub rest : R

abbrev pub is_unknown : RunEnvelopeOutcome → Bool
is_unknown unknown = true
is_unknown _ = false

abbrev pub has_key : String → String → StoredRun → Bool
has_key task key r = str_eq r.task_name task && str_eq r.envelope_key key

abbrev pub has_id : String → String → StoredRun → Bool
has_id task id r = str_eq r.task_name task && str_eq r.run_id id

-- the columns that the UPDATE sets; the two COALESCE only where a value is given
pub record RunEnd : Type 0 where
  pub channel : Option StateWriteChannel
  pub write_key : Option String
  pub as_of : Option String
  pub fresh_delta_count : Option ℕ
  pub event_count : Option ℕ
  pub outcome : RunEnvelopeOutcome
  pub blocker_code : Option String
  pub summary : Option String
  pub collector_build_sha : Option String
  pub cloudflare_version_id : Option String
  pub updated_at : ℕ

abbrev pub coalesce : {A : Type 0} → Option A → Option A → Option A
coalesce none o = o
coalesce (some a) o = some a

abbrev pub ended : RunEnd → StoredRun → StoredRun
ended e r = record r {
  channel = e.channel;
  write_key = e.write_key;
  as_of = e.as_of;
  fresh_delta_count = e.fresh_delta_count;
  event_count = e.event_count;
  outcome = e.outcome;
  blocker_code = e.blocker_code;
  summary = e.summary;
  collector_build_sha = coalesce e.collector_build_sha r.collector_build_sha;
  cloudflare_version_id = coalesce e.cloudflare_version_id r.cloudflare_version_id;
  updated_at = e.updated_at;
}

-- WHERE task_name = ? AND run_id = ? AND outcome = 'UNKNOWN'
unfoldable pub end_row : (task id : String) → RunEnd → StoredRun → StoredRun
end_row task id e r = if has_id task id r && is_unknown r.outcome then ended e r else r

module _ {R : Type 0} where
  -- `readRunV3`
  unfoldable pub read_run : (task key : String) → RunStore R → Option StoredRun
  read_run task key s = find? (has_key task key) s.runs

  unfoldable pub holds_run : (task key : String) → RunStore R → Bool
  holds_run task key s = any (has_key task key) s.runs

  -- INSERT ... ON CONFLICT (task_name, envelope_key) DO NOTHING; the task and the run id are the
  -- primary key
  unfoldable pub insert_run : StoredRun → RunStore R → Option (RunStore R)
  unfolding holds_run
  insert_run r s =
      if holds_run r.task_name r.envelope_key s
      then some s
      else if any (has_id r.task_name r.run_id) s.runs
      then none
      else some (record s { runs = s.runs ++ r ∷ [] })

  -- `updateRunV3Row`
  unfoldable pub update_run : (task id : String) → RunEnd → RunStore R → RunStore R
  update_run task id e s = record s { runs = map (end_row task id e) s.runs }
