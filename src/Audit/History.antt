-- ===== src/Audit/History.antt =====
-- What any calls of `src/automation-run-ledger.ts` leave of a run, whatever runs between their
-- accesses.
use mathlib.Core.Option.{some-injective}
use quantpro_collector.Prelude.{
  ℕ, ◌≡◌, subst, Bool, true, false, Option, some, List, [], ◌∷◌, ◌++◌, String, any, find?, map,
  if_intro,
}
use quantpro_collector.Db.Prog.{World, run}
use quantpro_collector.Db.Prog.Keeps.{
  Keeps, Respects, run-Keeps, Keeps-done, Keeps-exec, Keeps-batch_result, Keeps-bind, keeps_rules,
}
use quantpro_collector.Runs.History.{find_append, find-map}
use quantpro_collector.Audit.Runs.{
  StoredAutomationRun, AutomationRunBegin, AutomationRunEnd, BeginInput, EndInput, Schemas, Store,
  has_id, collides, read_run, insert_run, insert_begun, begin_at, begin_automation_run, end_row,
  update_run, finish_run, end_candidates, end_automation_run,
}
use quantpro_collector.Audit.Events.{
  EventInput, AutomationRunEvent, EventSchemas, note_row, note_event, event_row, write_event,
  write_and_read, note_known, record_automation_run_event,
}
use quantpro_collector.Audit.Follows.{
  Follows, end_row-has_id, end_row-Follows, itself-Follows, note_row-has_id, note_row-Follows,
  Follows-trans, mapped-Follows, found-Follows,
}

pub record History (before after : Store) : Type 0 where
  pub follows : (task id : String) → Follows (read_run task id before) (read_run task id after)

module _ {before : Store} where
  History-map :
      (f : StoredAutomationRun → StoredAutomationRun)
      → ((t k : String) (r : StoredAutomationRun) → has_id t k (f r) ≡ has_id t k r)
      → ((r : StoredAutomationRun) → Follows (some r) (some (f r)))
      → (s : Store) → History before s
      → History before (map f s)
  unfolding read_run
  History-map f same follows s p = record {
    follows = λ t k. Follows-trans (read_run t k before) (read_run t k s) _ (p.follows t k) (
        rw (find-map (has_id t k) f (same t k) s)
          (mapped-Follows (has_id t k) f (same t k) follows (find? (has_id t k) s)));
  }

  History-update_run :
      (task id : String) (e : AutomationRunEnd) (now : ℕ) (h : String) (s : Store)
      → History before s
      → History before (update_run task id e now h s)
  unfolding update_run
  History-update_run task id e now h =
      History-map (end_row task id e now h) (end_row-has_id task id e now h)
        (end_row-Follows task id e now h)

  History-note_event :
      (i : EventInput) (e : AutomationRunEvent) (h : String) (s : Store)
      → History before s
      → History before (note_event i e h s)
  unfolding note_event
  History-note_event i e h =
      History-map (note_row i e h) (note_row-has_id i e h) (note_row-Follows i e h)

  History-append :
      (r : StoredAutomationRun) (s : Store) → History before s → History before (s ++ r ∷ [])
  unfolding read_run
  History-append r s p = record {
    follows = λ t k.
        Follows-trans (read_run t k before) (read_run t k s) _ (p.follows t k)
          (rw (find_append (has_id t k) s (r ∷ [])) (found-Follows _ _));
  }

  History-insert_run :
      (r : StoredAutomationRun) (s : Store) → History before s → History before (insert_run r s)
  unfolding insert_run
  History-insert_run r s p =
      if_intro (History before) (any (collides r) s) (λ _. p) (λ _. History-append r s p)

  Keeps-insert_begun :
      (principal : String) (key : Option String) (row : StoredAutomationRun)
      → Keeps (History before) (insert_begun principal key row)
  unfolding insert_begun
  Keeps-insert_begun principal key row =
      Keeps-bind _ _
        (Keeps-batch_result _ _
          (λ s t p e. subst (History before) (some-injective _ _ e) (History-insert_run row s p)))
        λ inserted. search keeps_rules depth 16

  Keeps-begin_at :
      (i : BeginInput) (b : AutomationRunBegin) (now : ℕ)
      → Keeps (History before) (begin_at i b now)
  unfolding begin_at
  Keeps-begin_at i b now = search (keeps_rules, Keeps-insert_begun) depth 14

  Keeps-begin : (c : Schemas) (i : BeginInput) → Keeps (History before) (begin_automation_run c i)
  unfolding begin_automation_run
  Keeps-begin c i = search (keeps_rules, Keeps-begin_at) depth 14

  Keeps-finish_run :
      (e : AutomationRunEnd) (now : ℕ) (h : String) (r : StoredAutomationRun)
      → Keeps (History before) (finish_run e now h r)
  unfolding finish_run
  Keeps-finish_run e now h r = search (keeps_rules, Keeps-exec, History-update_run) depth 14

  Keeps-end_candidates :
      (e : AutomationRunEnd) (now : ℕ) (h : String) (rs : List StoredAutomationRun)
      → Keeps (History before) (end_candidates e now h rs)
  unfolding end_candidates
  Keeps-end_candidates e now h [] = Keeps-done _
  Keeps-end_candidates e now h (r ∷ []) = search (keeps_rules, Keeps-finish_run) depth 14
  Keeps-end_candidates e now h (r ∷ (q ∷ rs)) = Keeps-done _

  Keeps-end : (c : Schemas) (i : EndInput) → Keeps (History before) (end_automation_run c i)
  unfolding end_automation_run
  Keeps-end c i = search (keeps_rules, Keeps-end_candidates) depth 14

  Keeps-write_event :
      (i : EventInput) (e : AutomationRunEvent) (h : String) (is_new : Bool)
      → Keeps (History before) (write_event i e h is_new)
  Keeps-write_event i e h true = Keeps-batch_result _ _ λ s t p x.
      subst (History before) (some-injective _ _ x) (History-insert_run (event_row i e h) s p)
  Keeps-write_event i e h false =
      Keeps-batch_result _ _
        λ s t p x. subst (History before) (some-injective _ _ x) (History-note_event i e h s p)

  Keeps-write_and_read :
      (i : EventInput) (e : AutomationRunEvent) (h : String) (is_new : Bool)
      → Keeps (History before) (write_and_read i e h is_new)
  unfolding write_and_read
  Keeps-write_and_read i e h is_new =
      Keeps-bind _ _ (Keeps-write_event i e h is_new) λ written. search keeps_rules depth 16

  Keeps-note_known :
      (i : EventInput) (e : AutomationRunEvent) (h : String) (r : StoredAutomationRun)
      → Keeps (History before) (note_known i e h r)
  unfolding note_known
  Keeps-note_known i e h r = search (keeps_rules, Keeps-write_and_read) depth 14

  Keeps-event :
      (c : EventSchemas) (i : EventInput) → Keeps (History before) (record_automation_run_event c i)
  unfolding record_automation_run_event
  Keeps-event c i = search (keeps_rules, Keeps-write_and_read, Keeps-note_known) depth 14

-- Whatever other calls do in between and whichever accesses fail: neither the begin nor the end of
-- a run nor an older event loses a run, changes a run's caller, invocation or contract, touches a
-- run-v2 run that is over, or changes the digest, the outcome, the finish, the delta count or the
-- reason of an older run that has its FINAL event, if the other calls do so.
pub end_automation_run-History :
    (c : Schemas) (k : EventSchemas) (w : World Store) (b : BeginInput) (e : EndInput)
    (i : EventInput) (before : Store)
    → Respects (History before) w
    → History before (run w 0 (begin_automation_run c b) before).1
      × History before (run w 0 (end_automation_run c e) before).1
      × History before (run w 0 (record_automation_run_event k i) before).1
end_automation_run-History c k w b e i before others =
    let start : History before before = record {
      follows = λ t k. itself-Follows (read_run t k before);
    } in
    (
      run-Keeps w 0 (begin_automation_run c b) before others (Keeps-begin c b) start,
      run-Keeps w 0 (end_automation_run c e) before others (Keeps-end c e) start,
      run-Keeps w 0 (record_automation_run_event k i) before others (Keeps-event k i) start,
    )
