-- ===== src/Runs/Envelope/Process.antt =====
-- `processRunEnvelope` of `src/run-envelope.ts`: the gates, the reservation of the row, the command
-- and the end of the row.
use quantpro_collector.Prelude.{ℕ, false, not, Option, none, some, String, if◌then◌else◌}
use quantpro_collector.Db.Prog.{
  Prog, done, select, exec, select_catch, batch_result, case_option, when◌then◌else◌, ◌>>=◌,
}
use quantpro_collector.State.Errors.{unexpected, read}
use quantpro_collector.State.Close.{Answer, answer, thrown}
use quantpro_collector.Runs.Rows.{
  unknown, StoredRun, RunStore, RunEnd, is_unknown, read_run, holds_run, insert_run, update_run,
}
use quantpro_collector.Runs.Envelope.{
  ChannelPayload, RunEnvelope, Executed, Platform, RunInput, RunReply, receipt, raised,
  thrown_error, LedgerOutcome, heartbeat, pre_write_block, observation, executed, failure, derive,
}
use quantpro_collector.Runs.Envelope.Identity.{
  raw_task_name, raw_summary, combo_violation, RunIdentity, run_identity, text, blocker_text,
  compute_timeliness,
}
use quantpro_collector.Runs.Envelope.Replay.{
  notifies, receipt_from_row, invalid_error, new_row, record_invalid, unavailable, unreserved,
  classified,
}

module _ {R : Type 0} (pf : Platform R) (i : RunInput) where
  abbrev pub answered_as : Option ℕ → Answer Executed → LedgerOutcome
  answered_as n (thrown e) = failure (classified pf i e) n
  answered_as n (answer x) = executed x

  -- behind the owner's context, without which nothing is sent
  abbrev pub execute_in :
      Answer (Unit {0}) → ChannelPayload → RunIdentity → Prog (RunStore R) LedgerOutcome
  execute_in (thrown e) p d = done (failure (classified pf i e) none)
  execute_in (answer c) p d = do
    answered ←
        batch_result (λ s. some (record s { rest = (pf.execute p d.envelope_key s.rest).1 }))
          (λ s. (pf.execute p d.envelope_key s.rest).0)
    case_option answered (done (failure (classified pf i unexpected) d.event_count))
        λ x. done (answered_as d.event_count x)

  -- the command of a payload
  unfoldable pub execute_payload : ChannelPayload → RunIdentity → Prog (RunStore R) LedgerOutcome
  execute_payload p d =
      case_option pf.resolve_owner_context (done (failure (unavailable pf i read) none)) λ ask. do
        context ← select_catch (λ s. ask s.rest) (thrown unexpected)
        execute_in context p d

  -- the run itself
  unfoldable pub execute_run : RunEnvelope → RunIdentity → Prog (RunStore R) LedgerOutcome
  execute_run e d =
      case_option e.blocked_by
        (case_option e.observations
          (case_option e.channel_payload (done heartbeat) λ p. execute_payload p d)
          λ n. done (observation n))
        λ b. done (pre_write_block b)

  abbrev blocker_of : LedgerOutcome → Option String
  blocker_of (failure e n) = some (pf.code_text e.code e.phase)
  blocker_of (pre_write_block b) = some (text "PRE_WRITE:" (blocker_text b))
  blocker_of _ = none

  unfoldable pub run_end : RunEnvelope → RunIdentity → LedgerOutcome → RunEnd
  run_end e d o =
      let x = derive d.event_count o in
      record {
        channel = d.channel;
        write_key = x.write_key;
        as_of = d.as_of;
        fresh_delta_count = x.fresh_delta_count;
        event_count = x.event_count;
        outcome = x.outcome;
        blocker_code = blocker_of o;
        summary = some e.summary;
        collector_build_sha = i.collector_build_sha;
        cloudflare_version_id = i.cloudflare_version_id;
        updated_at = i.updated_at;
      }

  -- the answer: a receipt, or the error of the command
  unfoldable pub run_reply : RunEnvelope → RunIdentity → (id : String) → LedgerOutcome → RunReply
  run_reply e d id (failure x n) = raised (record {
    error = x;
    run_id = some id;
    outcome = some (derive d.event_count (failure x n)).outcome;
    envelope_key = some d.envelope_key;
  })
  run_reply e d id o =
      let x = derive d.event_count o in
      receipt (record {
        is_replay = false;
        run_id = id;
        task_name = e.task_name;
        outcome = x.outcome;
        blocker_code = blocker_of o;
        envelope_key = d.envelope_key;
        ledger = some (record {
          status = x.ledger_status;
          channel = d.channel;
          write_key = x.write_key;
          comment_id = x.comment_id;
          url = x.url;
        });
        fresh_delta_count = x.fresh_delta_count;
        event_count = x.event_count;
        notification_required = notifies pf i x.fresh_delta_count;
        is_stale = compute_timeliness pf d.as_of i.received_at;
      })

  unfoldable pub perform : RunEnvelope → RunIdentity → (id : String) → Prog (RunStore R) RunReply
  perform e d id = do
    o ← execute_run e d
    _ ← exec (update_run e.task_name id (run_end e d o))
    done (run_reply e d id o)

  -- The loser of the race for the row adopts the winner's run.
  unfoldable pub adopt : RunEnvelope → RunIdentity → (id : String) → Prog (RunStore R) RunReply
  adopt e d id = do
    winner ← select (read_run e.task_name d.envelope_key)
    case_option winner (done (unreserved pf i id d.envelope_key))
        λ w. when is_unknown w.outcome then perform e d w.run_id else receipt_from_row pf i w

  unfoldable pub reserve_run :
      RunEnvelope → RunIdentity → (id : String) → Prog (RunStore R) RunReply
  reserve_run e d id = do
    inserted ←
        batch_result
          (insert_run
            (new_row pf i e.task_name id d.envelope_key unknown none none d.prompt_version))
          (λ s. not (holds_run e.task_name d.envelope_key s))
    case_option inserted (done (unreserved pf i id d.envelope_key))
        λ fresh. when fresh then perform e d id else adopt e d id

  abbrev pub run_id_of : Option StoredRun → String
  run_id_of none = i.new_run_id
  run_id_of (some r) = r.run_id

  -- A run that is over is replayed.
  unfoldable pub process_identified : RunEnvelope → RunIdentity → Prog (RunStore R) RunReply
  process_identified e d = do
    existing ← select (read_run e.task_name d.envelope_key)
    case_option existing (reserve_run e d i.new_run_id)
        λ r. when is_unknown r.outcome then reserve_run e d r.run_id else receipt_from_row pf i r

  abbrev pub process_identity : RunEnvelope → Answer RunIdentity → Prog (RunStore R) RunReply
  process_identity e (thrown x) = done (thrown_error x)
  process_identity e (answer d) = process_identified e d

  abbrev clipped : Option String → Option String
  clipped none = none
  clipped (some s) = some (pf.clip s)

  unfoldable pub process_envelope : Option RunEnvelope → Prog (RunStore R) RunReply
  process_envelope none =
      case_option (raw_task_name i.envelope) (done (raised (invalid_error pf i none none))) λ task.
        record_invalid pf i task (text "E:INVALID:" (pf.sha256 i.envelope))
          (clipped (raw_summary i.envelope))
  process_envelope (some e) =
      when combo_violation e
      then record_invalid pf i e.task_name (text "E:INVALID:" (pf.sha256 (pf.envelope_json e)))
          (some e.summary)
      else process_identity e (run_identity pf e i.received_at)

  -- `processRunEnvelope`
  unfoldable pub process_run_envelope : Prog (RunStore R) RunReply
  process_run_envelope = process_envelope (pf.parse i.envelope)
