-- ===== src/Issues/Twice.antt =====
-- `submitIssueBookkeeping` (src/issue-bookkeeping.ts) called again with a dedupe key.
use quantpro_collector.Prelude.{
  ◌≡◌, ◌∙◌, refl, Bool, true, false, ◌&&◌, Option, none, some, if◌then◌else◌,
}
use quantpro_collector.Db.Table.{lookup}
use quantpro_collector.Db.Prog.{Prog, Reply, done, ok, alone, run, case_option, when◌then◌else◌}
use quantpro_collector.Db.Prog.Alone.{run_alone}
use quantpro_collector.Issues.Command.{Command, BookkeepingTarget, parse_command, target_at}
use quantpro_collector.Issues.Submit.{
  replay_receipt, rejected, is_comment, is_absent, parsed_targets, submit_to, update_status,
  submit_command, submit_issue_bookkeeping,
}
use quantpro_collector.Issues.Rows.{
  StoredRow, Store, Platform, SubmitInput, BookkeepingReply, invalid,
}
use quantpro_collector.Issues.Delivery.{
  delivery_outcome, reply_of, settled_row, delivered, lookup-delivered, submit_to_first,
  submit_to_replay,
}

-- what passes two gates and a search, and the answer of the one that it does not pass
abbrev pub passed : {T L : Type 0} → Bool → Option L → (L → Option T) → Option T
passed true p look = none
passed false none look = none
passed false (some ts) look = look ts

abbrev pub denied : {R L : Type 0} → Bool → Option L → (x y z : R) → R
denied true p x y z = x
denied false none x y z = y
denied false (some ts) x y z = z

module _ {S R T : Type 0} where
  -- the last gate
  target-run :
      (o : Option T) (x : R) (k : T → Prog S R) (s : S)
      → run alone 0 (case_option o (done x) k) s
        ≡ elim o [ none ↦ (ok x, s) | some t ↦ run alone 0 (k t) s ]
  target-run none x k s = simp run_alone
  target-run (some t) x k s = simp run_alone

  -- three gates, one behind the other
  gates-run :
      {L : Type 0} (b : Bool) (p : Option L) (look : L → Option T) (x y z : R) (k : T → Prog S R)
      (s : S)
      → run alone 0
          (when b then done x else case_option p (done y) λ ts. case_option (look ts) (done z) k)
          s
        ≡ elim (passed b p look) [
          | none ↦ (ok (denied b p x y z), s)
          | some t ↦ run alone 0 (k t) s
        ]
  unfolding when◌then◌else◌ case_option run
  gates-run true p look x y z k s = refl
  gates-run false none look x y z k s = refl
  gates-run false (some ts) look x y z k s = target-run (look ts) z k s

  either-ok :
      (o : Option T) (f : T → Reply R × S) (x : R) (g : T → R) (s : S)
      → ((t : T) → f t ≡ (ok (g t), s))
      → elim o as (λ _. Reply R × S) [ none ↦ (ok x, s) | some t ↦ f t ]
        ≡ (ok (elim o [ none ↦ x | some t ↦ g t ]), s)
  either-ok none f x g s h = refl
  either-ok (some t) f x g s h = h t

module _ {G : Type 0} (pf : Platform G) (i : SubmitInput) (c : Command) where
  -- a comment must have a body
  abbrev pub lacks_body : Bool
  lacks_body = is_comment pf i c c.operation && is_absent pf i c c.body

  -- the target of a command that passes the gates, and the answer to one that does not
  abbrev pub admitted : Option BookkeepingTarget
  admitted = passed lacks_body (parsed_targets pf i c) (target_at c.target_key)

  abbrev pub refusal : BookkeepingReply
  refusal =
      denied lacks_body (parsed_targets pf i c) invalid
        (rejected pf i c "bookkeeping targets not configured")
        (rejected pf i c "target_key is not whitelisted")

  -- the answer to a command whose key has a row
  abbrev pub repeated : StoredRow → BookkeepingReply
  repeated r = elim admitted [ none ↦ refusal | some t ↦ replay_receipt pf i c r ]

  submit_command-gates :
      (s : Store G)
      → run alone 0 (submit_command pf i c) s
        ≡ elim admitted [ none ↦ (ok refusal, s) | some t ↦ run alone 0 (submit_to pf i c t) s ]
  unfolding submit_command
  submit_command-gates s =
      gates-run lacks_body (parsed_targets pf i c) (target_at c.target_key) _ _ _ (submit_to pf i c)
        s

  submit_issue_bookkeeping-gates :
      (s : Store G)
      → parse_command i.command ≡ some c
      → run alone 0 (submit_issue_bookkeeping pf i) s
        ≡ elim admitted [ none ↦ (ok refusal, s) | some t ↦ run alone 0 (submit_to pf i c t) s ]
  unfolding submit_issue_bookkeeping
  submit_issue_bookkeeping-gates s h = simp (run_alone, h) (submit_command-gates s)

  submit_issue_bookkeeping-repeated :
      (s : Store G) (r : StoredRow)
      → parse_command i.command ≡ some c
      → lookup c.dedupe_key s.rows ≡ some r
      → run alone 0 (submit_issue_bookkeeping pf i) s ≡ (ok (repeated r), s)
  submit_issue_bookkeeping-repeated s r h l =
      submit_issue_bookkeeping-gates s h
      ∙ either-ok admitted (λ t. run alone 0 (submit_to pf i c t) s) refusal
          (λ t. replay_receipt pf i c r) s (λ t. submit_to_replay pf i c t s r l)

module _ {G : Type 0} (pf : Platform G) where
  -- With nothing else running and no access failing: a command that passes the gates (its schema, a
  -- body for a comment, the whitelist) and has a new dedupe key is sent to GitHub once, or blocked
  -- where there is no token; its answer says what came of that, and so does the row under the key.
  -- Any later command with the key is refused if it does not pass the gates, and otherwise answered
  -- with that row, whatever else it asks; it changes neither the rows nor GitHub.
  pub submit_issue_bookkeeping_twice :
      (i j : SubmitInput) (c d : Command) (t : BookkeepingTarget) (s : Store G)
      → parse_command i.command ≡ some c
      → parse_command j.command ≡ some d
      → d.dedupe_key ≡ c.dedupe_key
      → admitted pf i c ≡ some t
      → lookup c.dedupe_key s.rows ≡ none
      → let x = delivery_outcome pf i c t s.github in
        let after = delivered pf i c t s in
        (run alone 0 (submit_issue_bookkeeping pf i) s ≡ (ok (reply_of pf i c t x.0), after))
        × (after.github ≡ x.1)
        × (lookup c.dedupe_key after.rows ≡ some (settled_row pf i c x.0))
        × (run alone 0 (submit_issue_bookkeeping pf j) after
            ≡ (ok (repeated pf j d (settled_row pf i c x.0)), after))
  unfolding delivered update_status
  submit_issue_bookkeeping_twice i j c d t s h k e a l = (
    rw (submit_issue_bookkeeping-gates pf i c s h) (rw a (submit_to_first pf i c t s l)),
    refl,
    lookup-delivered pf i c t s l,
    submit_issue_bookkeeping-repeated pf j d (delivered pf i c t s)
        (settled_row pf i c (delivery_outcome pf i c t s.github).0) k
        (rw e (lookup-delivered pf i c t s l)),
  )
