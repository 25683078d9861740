-- ===== src/Issues/Delivery.antt =====
-- `submitIssueBookkeeping` (src/issue-bookkeeping.ts): when GitHub is called.
use quantpro_collector.Prelude.{
  ℕ, ◌≡◌, refl, sym, ◌∙◌, true, false, ap, List, ◌&&◌, Option, none, some, String, eq_refl, ◌==◌,
  arith, Option-cases, inl, inr, if◌then◌else◌,
}
use quantpro_collector.Db.Table.{lookup}
use quantpro_collector.Db.Prog.{
  ok, alone, run, World, exec, select, batch_result, case_option, when◌then◌else◌, ◌>>=◌,
}
use quantpro_collector.Db.Prog.Alone.{run_alone}
use quantpro_collector.State.History.{
  lookup-update_row, lookup-insert_or_ignore, insert_or_ignore_taken,
}
use quantpro_collector.Issues.Command.{
  Command, BookkeepingTarget, find_target, is_inherited, target_at,
}
use quantpro_collector.Issues.Submit.{
  replay_receipt, answer_with, reserved_row, reserve_row, with_status, update_status, delivery,
  verdict, settle, deliver_reserved, submit_to, submit_command, is_comment, is_absent,
  parsed_targets,
}
use quantpro_collector.Issues.Rows.{
  RowStatus, BookkeepingStatus, StoredRow, Store, Platform, SubmitInput, Verdict, BookkeepingReply,
  truthy, failed_with,
}

-- what an inherited property has for a repository and an issue
abbrev pub nowhere : BookkeepingTarget
nowhere = record { repo = none; issue = none }

target_at_inherited :
    (key : String) (ts : List (String × BookkeepingTarget))
    → find_target key ts ≡ none
    → is_inherited key ≡ true
    → target_at key ts ≡ some nowhere
unfolding target_at
target_at_inherited key ts f n = rw (f, target_at) (rw n refl)

module _ {G : Type 0} (pf : Platform G) (i : SubmitInput) (c : Command) where
  -- what comes of a reservation, and what it leaves of GitHub
  abbrev pub outcome_with : Option String → BookkeepingTarget → G → Verdict × G
  outcome_with none t g = (
    failed_with RowStatus.delivery_blocked BookkeepingStatus.delivery_blocked
        "token_not_configured",
    g,
  )
  outcome_with (some token) t g = (
    verdict pf i c (pf.deliver (delivery pf i c t token) g).0,
    (pf.deliver (delivery pf i c t token) g).1,
  )

  abbrev pub delivery_outcome : BookkeepingTarget → G → Verdict × G
  delivery_outcome = outcome_with (truthy i.token)

  abbrev pub reply_of : BookkeepingTarget → Verdict → BookkeepingReply
  reply_of t v = answer_with pf i c v.status (some t) v.issue_comment_id v.url v.detail

  -- the row that a delivery leaves
  abbrev pub settled_row : Verdict → StoredRow
  settled_row v =
      with_status pf i c v.row_status v.issue_comment_id v.url v.detail (reserved_row pf i c)

  unfoldable pub delivered : BookkeepingTarget → Store G → Store G
  delivered t s =
      let v = (delivery_outcome t s.github).0 in
      update_status pf i c v.row_status v.issue_comment_id v.url v.detail
        (record (reserve_row pf i c s) { github = (delivery_outcome t s.github).1 })

  deliver_reserved-alone :
      (n : ℕ) (t : BookkeepingTarget) (s : Store G)
      → let x = delivery_outcome t s.github in
        run alone n (deliver_reserved pf i c t) s ≡ (
          ok (reply_of t x.0),
          update_status pf i c x.0.row_status x.0.issue_comment_id x.0.url x.0.detail
              (record s { github = x.1 }),
        )
  unfolding deliver_reserved settle
  deliver_reserved-alone n t s = elim (Option-cases (truthy i.token)) [
    | inl h ↦ simp (run_alone, h)
    | inr (token, h) ↦ simp (run_alone, h)
  ]

  lookup-reserved :
      (s : Store G)
      → lookup c.dedupe_key s.rows ≡ none
      → lookup c.dedupe_key (reserve_row pf i c s).rows ≡ some (reserved_row pf i c)
  unfolding reserve_row
  lookup-reserved s h =
      rw (lookup-insert_or_ignore c.dedupe_key c.dedupe_key (reserved_row pf i c) s.rows, h)
        (simp (eq_refl c.dedupe_key))

  pub submit_to_first :
      (t : BookkeepingTarget) (s : Store G)
      → lookup c.dedupe_key s.rows ≡ none
      → run alone 0 (submit_to pf i c t) s
        ≡ (ok (reply_of t (delivery_outcome t s.github).0), delivered t s)
  unfolding submit_to delivered reserve_row
  submit_to_first t s h =
      let e : (i.now == i.now) ≡ true = ground arith in
      simp (run_alone, h, lookup-reserved s h, e)
        (deliver_reserved-alone 3 t (reserve_row pf i c s))

  pub lookup-delivered :
      (t : BookkeepingTarget) (s : Store G)
      → lookup c.dedupe_key s.rows ≡ none
      → lookup c.dedupe_key (delivered t s).rows
        ≡ some (settled_row (delivery_outcome t s.github).0)
  unfolding delivered update_status
  lookup-delivered t s h =
      let v = (delivery_outcome t s.github).0 in
      lookup-update_row c.dedupe_key c.dedupe_key
        (with_status pf i c v.row_status v.issue_comment_id v.url v.detail)
        (reserve_row pf i c s).rows
      ∙ simp (eq_refl c.dedupe_key, lookup-reserved s h)

  pub submit_to_replay :
      (t : BookkeepingTarget) (s : Store G) (r : StoredRow)
      → lookup c.dedupe_key s.rows ≡ some r
      → run alone 0 (submit_to pf i c t) s ≡ (ok (replay_receipt pf i c r), s)
  unfolding submit_to
  submit_to_replay t s r h = simp (run_alone, h)

  -- what a call does while another call runs as a whole between its first two accesses
  abbrev pub overtaken : (Store G → Store G) → World (Store G)
  overtaken u = record { others = λ n s. if n == 1 then u s else s; down = λ n. false }

  deliver_reserved-overtaken :
      (u : Store G → Store G) (t : BookkeepingTarget) (s : Store G)
      → run (overtaken u) 3 (deliver_reserved pf i c t) s
        ≡ run alone 3 (deliver_reserved pf i c t) s
  unfolding deliver_reserved settle run ◌>>=◌ case_option exec batch_result
  deliver_reserved-overtaken u t s = elim (Option-cases (truthy i.token)) [
    | inl h ↦ rw h refl
    | inr (token, h) ↦ rw h refl
  ]

  reserve_row_taken :
      (s : Store G) (r : StoredRow) → lookup c.dedupe_key s.rows ≡ some r → reserve_row pf i c s ≡ s
  unfolding reserve_row
  reserve_row_taken s r h =
      ap (λ x. record s { rows = x })
        (insert_or_ignore_taken c.dedupe_key (reserved_row pf i c) r s.rows h)

  -- the rest of the overtaken call
  submit_to-overtaken :
      (u : Store G → Store G) (t : BookkeepingTarget) (s : Store G) (r : StoredRow)
      → lookup c.dedupe_key s.rows ≡ none
      → lookup c.dedupe_key (u s).rows ≡ some r
      → r.updated_at ≡ i.now
      → run (overtaken u) 0 (submit_to pf i c t) s
        ≡ run (overtaken u) 3 (deliver_reserved pf i c t) (u s)
  unfolding submit_to run ◌>>=◌ case_option exec select when◌then◌else◌ lookup deliver_reserved
  submit_to-overtaken u t s r h g m =
      let e : (r.updated_at == i.now) ≡ true = ground arith in
      simp h (rw (reserve_row_taken (u s) r g) (simp (g, e)))

module _ {G : Type 0} (pf : Platform G) where
  -- If two calls with one dedupe key start in the same millisecond, and the second runs as a whole
  -- between the first two accesses of the first, then both call GitHub.
  pub submit_to_race :
      (i j : SubmitInput) (c d : Command) (t u : BookkeepingTarget) (s : Store G)
      → lookup c.dedupe_key s.rows ≡ none
      → d.dedupe_key ≡ c.dedupe_key
      → j.now ≡ i.now
      → let between = λ (x : Store G). (run alone 0 (submit_to pf j d u) x).1 in
        (run (overtaken pf i c between) 0 (submit_to pf i c t) s).1.github
        ≡ (delivery_outcome pf i c t (delivery_outcome pf j d u s.github).1).1
  unfolding delivered update_status
  submit_to_race i j c d t u s h e m =
      let between : Store G → Store G = λ x. (run alone 0 (submit_to pf j d u) x).1 in
      let h' : lookup d.dedupe_key s.rows ≡ none = rw e h in
      let first = submit_to_first pf j d u s h' in
      let rest : between s ≡ delivered pf j d u s = ap (λ x. x.1) first in
      let row : lookup c.dedupe_key (between s).rows
          ≡ some (settled_row pf j d (delivery_outcome pf j d u s.github).0) =
        rw rest (rw (sym e) (lookup-delivered pf j d u s h')) in
      ap (λ x. x.1.github)
        (submit_to-overtaken pf i c between t s _ h row m
          ∙ deliver_reserved-overtaken pf i c between t (between s)
          ∙ deliver_reserved-alone pf i c 3 t (between s))
      ∙ ap (λ x. (delivery_outcome pf i c t x.github).1) rest

  -- A target key that is the name of an inherited property passes the whitelist although no entry
  -- of the whitelist has it: a command with a new dedupe key is delivered, with no repository and
  -- no issue.
  pub submit_command_inherited :
      (i : SubmitInput) (c : Command) (ts : List (String × BookkeepingTarget)) (s : Store G)
      → (is_comment pf i c c.operation && is_absent pf i c c.body) ≡ false
      → parsed_targets pf i c ≡ some ts
      → find_target c.target_key ts ≡ none
      → is_inherited c.target_key ≡ true
      → lookup c.dedupe_key s.rows ≡ none
      → run alone 0 (submit_command pf i c) s ≡ (
        ok (reply_of pf i c nowhere (delivery_outcome pf i c nowhere s.github).0),
        delivered pf i c nowhere s,
      )
  unfolding submit_command
  submit_command_inherited i c ts s b p f n h =
      simp (run_alone, b, p, target_at_inherited c.target_key ts f n)
        (submit_to_first pf i c nowhere s h)
