-- ===== src/Runs/Calls.antt =====
-- A whole call of `processRunEnvelope` (src/run-envelope.ts), whatever runs between its accesses.
use quantpro_collector.Prelude.{subst, Option, none, some, String}
use mathlib.Core.Option.{some-injective}
use quantpro_collector.Db.Prog.{World, run}
use quantpro_collector.Db.Prog.Keeps.{
  Keeps, Respects, run-Keeps, Keeps-done, Keeps-select_catch, Keeps-exec, Keeps-batch_result,
  Keeps-bind, Keeps-when, Keeps-option, keeps_rules,
}
use quantpro_collector.State.Close.{Answer, answer, thrown}
use quantpro_collector.Runs.Rows.{StoredRun, RunStore}
use quantpro_collector.Runs.Envelope.{ChannelPayload, RunEnvelope, Platform, RunInput}
use quantpro_collector.Runs.Envelope.Identity.{RunIdentity}
use quantpro_collector.Runs.Envelope.Process.{
  execute_in, execute_payload, execute_run, perform, adopt, reserve_run, process_identified,
  process_identity, process_envelope, process_run_envelope,
}
use quantpro_collector.Runs.Envelope.Replay.{receipt_from_row, record_invalid}
use quantpro_collector.Runs.History.{History, History-insert_run, History-update_run, History-rest}

module _ {R : Type 0} {before : RunStore R} (pf : Platform R) (i : RunInput) where
  Keeps-receipt_from_row : (r : StoredRun) → Keeps (History before) (receipt_from_row pf i r)
  unfolding receipt_from_row
  Keeps-receipt_from_row r = search keeps_rules depth 10

  Keeps-record_invalid :
      (task key : String) (summary : Option String)
      → Keeps (History before) (record_invalid pf i task key summary)
  unfolding record_invalid
  Keeps-record_invalid task key summary =
      Keeps-bind _ _ (Keeps-batch_result _ _ (λ s t. History-insert_run _ s t))
        λ inserted. search (keeps_rules, Keeps-receipt_from_row) depth 12

  Keeps-execute_in :
      (c : Answer (Unit {0})) (p : ChannelPayload) (d : RunIdentity)
      → Keeps (History before) (execute_in pf i c p d)
  Keeps-execute_in (thrown e) p d = Keeps-done _
  Keeps-execute_in (answer c) p d =
      Keeps-bind _ _
        (Keeps-batch_result _ _
          (λ s t h e. subst (History before) (some-injective _ _ e) (History-rest _ s h)))
        λ answered. search keeps_rules depth 8

  Keeps-execute_payload :
      (p : ChannelPayload) (d : RunIdentity) → Keeps (History before) (execute_payload pf i p d)
  unfolding execute_payload
  Keeps-execute_payload p d =
      Keeps-option pf.resolve_owner_context _ _ (Keeps-done _)
        λ ask. Keeps-bind _ _ (Keeps-select_catch _ _) (λ context. Keeps-execute_in context p d)

  Keeps-execute_run :
      (e : RunEnvelope) (d : RunIdentity) → Keeps (History before) (execute_run pf i e d)
  unfolding execute_run
  Keeps-execute_run e d = search (keeps_rules, Keeps-execute_payload) depth 10

  Keeps-perform :
      (e : RunEnvelope) (d : RunIdentity) (id : String)
      → Keeps (History before) (perform pf i e d id)
  unfolding perform
  Keeps-perform e d id =
      Keeps-bind _ _ (Keeps-execute_run e d)
        λ o. Keeps-bind _ _ (Keeps-exec _ (History-update_run _ _ _)) (λ x. Keeps-done _)

  Keeps-adopt :
      (e : RunEnvelope) (d : RunIdentity) (id : String) → Keeps (History before) (adopt pf i e d id)
  unfolding adopt
  Keeps-adopt e d id = search (keeps_rules, Keeps-perform, Keeps-receipt_from_row) depth 12

  Keeps-reserve_run :
      (e : RunEnvelope) (d : RunIdentity) (id : String)
      → Keeps (History before) (reserve_run pf i e d id)
  unfolding reserve_run
  Keeps-reserve_run e d id =
      Keeps-bind _ _ (Keeps-batch_result _ _ (λ s t. History-insert_run _ s t))
        λ inserted. search (keeps_rules, Keeps-perform, Keeps-adopt) depth 12

  Keeps-process_identified :
      (e : RunEnvelope) (d : RunIdentity) → Keeps (History before) (process_identified pf i e d)
  unfolding process_identified
  Keeps-process_identified e d =
      search (keeps_rules, Keeps-reserve_run, Keeps-receipt_from_row) depth 12

  Keeps-process_identity :
      (e : RunEnvelope) (d : Answer RunIdentity)
      → Keeps (History before) (process_identity pf i e d)
  Keeps-process_identity e (thrown x) = Keeps-done _
  Keeps-process_identity e (answer d) = Keeps-process_identified e d

  Keeps-process_envelope :
      (e : Option RunEnvelope) → Keeps (History before) (process_envelope pf i e)
  unfolding process_envelope
  Keeps-process_envelope none =
      Keeps-option _ _ _ (Keeps-done _) (λ task. Keeps-record_invalid task _ _)
  Keeps-process_envelope (some e) =
      Keeps-when _ _ _ (λ h. Keeps-record_invalid _ _ _) (λ h. Keeps-process_identity e _)

-- Whatever other calls do in between and whichever accesses fail: a run envelope loses no run and
-- changes no run's id, leaves every run that is over exactly as it was, and keeps at most one run
-- for an envelope, if the other calls do so and there is at most one before.
pub process_run_envelope-History :
    {R : Type 0} (pf : Platform R) (w : World (RunStore R)) (i : RunInput) (before : RunStore R)
    → Respects (History before) w
    → History before before
    → History before (run w 0 (process_run_envelope pf i) before).1
unfolding process_run_envelope
process_run_envelope-History pf w i before others h =
    run-Keeps w 0 (process_run_envelope pf i) before others
      (Keeps-process_envelope pf i (pf.parse i.envelope)) h
