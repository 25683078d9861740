-- ===== src/Runs/Once.antt =====
-- `processRunEnvelope` (src/run-envelope.ts) called twice with one envelope.
use quantpro_collector.Prelude.{Option, none, some, [], ◌∷◌, ◌++◌, String}
use quantpro_collector.Db.Prog.{exec, exec, exec, exec}
use quantpro_collector.State.Errors.{read}
use quantpro_collector.State.Receipts.{StateWriteReceipt}
use quantpro_collector.State.Close.{Answer, answer, thrown}
use quantpro_collector.Runs.Rows.{StoredRun, RunStore, unknown, ended, update_run}
use quantpro_collector.Runs.Envelope.{
  ChannelPayload, RunEnvelope, Platform, RunInput, LedgerOutcome, heartbeat, pre_write_block,
  observation, failure,
}
use quantpro_collector.Runs.Envelope.Identity.{RunIdentity}
use quantpro_collector.Runs.Envelope.Process.{answered_as, run_end}
use quantpro_collector.Runs.Envelope.Replay.{truthy, new_row, classified, unavailable}

module _ {R : Type 0} (pf : Platform R) (i : RunInput) where
  -- what a run comes to, and what it leaves of the rest of the store
  abbrev in_context : Answer (Unit {0}) → ChannelPayload → RunIdentity → R → LedgerOutcome × R
  in_context (thrown x) p d r = (failure (classified pf i x) none, r)
  in_context (answer c) p d r = (
    answered_as pf i d.event_count (pf.execute p d.envelope_key r).0,
    (pf.execute p d.envelope_key r).1,
  )

  abbrev payload_outcome :
      Option (R → Answer (Unit {0})) → ChannelPayload → RunIdentity → R → LedgerOutcome × R
  payload_outcome none p d r = (failure (unavailable pf i read) none, r)
  payload_outcome (some ask) p d r = in_context (ask r) p d r

  abbrev bare_outcome : Option ChannelPayload → RunIdentity → R → LedgerOutcome × R
  bare_outcome none d r = (heartbeat, r)
  bare_outcome (some p) d r = payload_outcome pf.resolve_owner_context p d r

  unfoldable pub run_outcome : RunEnvelope → RunIdentity → R → LedgerOutcome × R
  run_outcome e d r = elim e.blocked_by [
    | some b ↦ (pre_write_block b, r)
    | none ↦ elim e.observations [
      | some n ↦ (observation n, r)
      | none ↦ bare_outcome e.channel_payload d r
    ]
  ]

  -- the row of a run that is over
  abbrev pub final_row : RunEnvelope → RunIdentity → LedgerOutcome → StoredRun
  final_row e d o =
      ended (run_end pf i e d o)
        (new_row pf i e.task_name i.new_run_id d.envelope_key unknown none none d.prompt_version)

  abbrev pub final_store : RunEnvelope → RunIdentity → RunStore R → RunStore R
  final_store e d s =
      let x = run_outcome e d s.rest in
      update_run e.task_name i.new_run_id (run_end pf i e d x.0) (record s {
        runs =
            s.runs
            ++ new_row pf i e.task_name i.new_run_id d.envelope_key unknown none none
                d.prompt_version
              ∷ [];
        rest = x.1;
      })

module _ {R : Type 0} (pf : Platform R) where
  abbrev receipt_under : Option String → R → Option StateWriteReceipt
  receipt_under none x = none
  receipt_under (some key) x = pf.find_receipt key x

  -- the receipt of the row's write, if it has one
  abbrev pub found_receipt : RunInput → StoredRun → R → Option StateWriteReceipt
  found_receipt i r x = receipt_under (truthy pf i r.write_key) x
