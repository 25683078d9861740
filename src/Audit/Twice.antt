-- ===== src/Audit/Twice.antt =====
-- `endAutomationRun` (src/automation-run-ledger.ts) called twice, with nothing in between.
use quantpro_collector.Prelude.{
  ℕ, ◌≡◌, refl, ap, ◌∙◌, Bool, true, false, ◌&&◌, none, some, List, [], ◌∷◌, map, String, str_eq,
  eq_refl, filter, arith, if◌then◌else◌, if_intro, Bool-cases, inl, inr,
}
use quantpro_collector.Db.Prog.{ok, alone, run}
use quantpro_collector.Db.Prog.Alone.{run_alone}
use quantpro_collector.Runs.History.{find-map, mapped}
use quantpro_collector.Audit.Follows.{end_row-has_id}
use quantpro_collector.Audit.Runs.{
  StoredAutomationRun, AutomationRunEnd, EndInput, Schemas, Store, answered, refused, conflict,
  has_id, is_open, is_candidate, ended, end_row, read_run, update_run, end_candidates,
  end_automation_run,
}

-- a run that is alone with its id
filter-map :
    {A : Type 0} (p : A → Bool) (f : A → A)
    → ((x : A) → p (f x) ≡ p x)
    → (xs : List A) → filter p (map f xs) ≡ map f (filter p xs)
filter-map p f same [] = refl
filter-map p f same (x ∷ xs) = elim (Bool-cases (p x)) [
  | inl h ↦ ground (arith, h, same x, filter-map p f same xs)
  | inr h ↦ ground (arith, h, same x, filter-map p f same xs)
]

end_row-is_candidate :
    (task id : String) (e : AutomationRunEnd) (now : ℕ) (h k : String) (r : StoredAutomationRun)
    → is_candidate k (end_row task id e now h r) ≡ is_candidate k r
unfolding end_row
end_row-is_candidate task id e now h k r =
    if_intro (λ q. is_candidate k q ≡ is_candidate k r) (has_id task id r && is_open r) (λ _. refl)
      (λ _. refl)

end_row-open :
    (e : AutomationRunEnd) (now : ℕ) (h : String) (r : StoredAutomationRun)
    → is_open r ≡ true
    → end_row r.task_name r.run_id e now h r ≡ ended e now h r
unfolding end_row
end_row-open e now h r o =
    let matches : (has_id r.task_name r.run_id r && is_open r) ≡ true =
      ground (arith, o, eq_refl r.task_name, eq_refl r.run_id) in
    ap (λ b. if b then ended e now h r else r) matches

finished-row :
    (e : AutomationRunEnd) (now : ℕ) (h : String) (r : StoredAutomationRun) (s : Store)
    → read_run r.task_name r.run_id s ≡ some r
    → is_open r ≡ true
    → read_run r.task_name r.run_id (update_run r.task_name r.run_id e now h s)
      ≡ some (ended e now h r)
unfolding read_run update_run
finished-row e now h r s f o =
    find-map (has_id r.task_name r.run_id) (end_row r.task_name r.run_id e now h)
      (end_row-has_id r.task_name r.run_id e now h r.task_name r.run_id) s
    ∙ ap
        (mapped (has_id r.task_name r.run_id) (end_row r.task_name r.run_id e now h)
          (end_row-has_id r.task_name r.run_id e now h r.task_name r.run_id))
        f
    ∙ ap some (end_row-open e now h r o)

one_candidate :
    (e : AutomationRunEnd) (now : ℕ) (h id : String) (r : StoredAutomationRun) (s : Store)
    → filter (is_candidate id) s ≡ r ∷ []
    → is_open r ≡ true
    → filter (is_candidate id) (update_run r.task_name r.run_id e now h s) ≡ ended e now h r ∷ []
unfolding update_run
one_candidate e now h id r s only o =
    filter-map (is_candidate id) (end_row r.task_name r.run_id e now h)
      (end_row-is_candidate r.task_name r.run_id e now h id) s
    ∙ ap (map (end_row r.task_name r.run_id e now h)) only
    ∙ ap (λ q. q ∷ []) (end_row-open e now h r o)

end_run-alone :
    (c : Schemas) (i : EndInput) (e : AutomationRunEnd) (s : Store)
    → c.parse_end i.end ≡ some e
    → run alone 0 (end_automation_run c i) s
      ≡ run alone 1 (end_candidates e i.now (c.sha256 e) (filter (is_candidate e.run_id) s)) s
unfolding end_automation_run
end_run-alone c i e s h = simp (run_alone, h)

none_final : (r : StoredAutomationRun) → is_open r ≡ true → r.final_payload_sha256 ≡ none
none_final r o = ground (arith, o)

-- With nothing else running and no access failing, the end of an open run, whose id no other run
-- has, is recorded with the values of the call. A later end of the run changes nothing: the same
-- digest is answered with the recorded run, another one with a conflict.
pub end_automation_run_twice :
    (c : Schemas) (i j : EndInput) (e f : AutomationRunEnd) (r : StoredAutomationRun) (s : Store)
    → c.parse_end i.end ≡ some e
    → c.parse_end j.end ≡ some f
    → f.run_id ≡ e.run_id
    → filter (is_candidate e.run_id) s ≡ r ∷ []
    → read_run r.task_name r.run_id s ≡ some r
    → is_open r ≡ true
    → let h = c.sha256 e in
      let q = ended e i.now h r in
      let t = update_run r.task_name r.run_id e i.now h s in
      (run alone 0 (end_automation_run c i) s ≡ (ok (answered true q), t))
      × (run alone 0 (end_automation_run c j) t
          ≡ (ok (if str_eq h (c.sha256 f) then answered false q else refused conflict), t))
unfolding end_candidates
end_automation_run_twice c i j e f r s pe pf same only found o =
    let h = c.sha256 e in
    let t = update_run r.task_name r.run_id e i.now h s in
    (
      end_run-alone c i e s pe
          ∙ rw only
              (simp (none_final r o, run_alone, finished-row e i.now h r s found o, eq_refl h)),
      end_run-alone c j f t pf
          ∙ ap
              (λ id.
                run alone 1 (end_candidates f j.now (c.sha256 f) (filter (is_candidate id) t)) t)
              same
          ∙ ap (λ l. run alone 1 (end_candidates f j.now (c.sha256 f) l) t)
              (one_candidate e i.now h e.run_id r s only o)
          ∙ simp run_alone,
    )
