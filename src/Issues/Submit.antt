-- ===== src/Issues/Submit.antt =====
-- `submitIssueBookkeeping` of `src/issue-bookkeeping.ts`: the dedupe row, the call of GitHub, and
-- the status that it leaves. The table is there: its creation is left out.
use quantpro_collector.Prelude.{
  ℕ, Bool, true, false, not, ◌&&◌, ◌||◌, Option, none, some, List, String, str_eq, leb, ◌==◌,
  if◌then◌else◌,
}
use quantpro_collector.Json.{Json, get, record_of, text_of}
use quantpro_collector.Db.Table.{lookup}
use quantpro_collector.Db.Prog.{
  Prog, done, select, exec, batch_result, case_option, when◌then◌else◌, ◌>>=◌,
}
use quantpro_collector.State.Receipts.{update_row, insert_or_ignore}
use quantpro_collector.Issues.Command.{
  Operation, comment, close, Command, BookkeepingTarget, parse_command, parse_targets, target_at,
}
use quantpro_collector.Issues.Rows.{
  BookkeepingReply, BookkeepingStatus, Delivery, Platform, Response, RowStatus, Store, StoredRow,
  SubmitInput, Verdict, assemble_body, failed_with, idempotent_replay, invalid, receipt,
  rejected_target, text, truthy, unavailable,
}

module _ {G : Type 0} (pf : Platform G) (i : SubmitInput) (c : Command) where
  abbrev pub replay_receipt : StoredRow → BookkeepingReply
  replay_receipt r = receipt (record {
    status = idempotent_replay;
    dedupe_key = c.dedupe_key;
    source_task = r.source_task;
    target_key = r.target_key;
    operation = r.operation;
    target = none;
    issue_comment_id = r.issue_comment_id;
    url = r.url;
    detail = r.detail;
    occurred_at = r.updated_at;
  })

  abbrev pub answer_with :
      BookkeepingStatus
      → Option BookkeepingTarget
      → (comment_id url detail : Option String) → BookkeepingReply
  answer_with status target comment_id url detail = receipt (record {
    status = status;
    dedupe_key = c.dedupe_key;
    source_task = c.source_task;
    target_key = c.target_key;
    operation = c.operation;
    target = target;
    issue_comment_id = comment_id;
    url = url;
    detail = detail;
    occurred_at = i.now;
  })

  abbrev pub rejected : String → BookkeepingReply
  rejected detail = answer_with rejected_target none none none (some detail)

  abbrev pub select_row : Store G → Option StoredRow
  select_row s = lookup c.dedupe_key s.rows

  abbrev pub reserved_row : StoredRow
  reserved_row = record {
    source_task = c.source_task;
    target_key = c.target_key;
    operation = c.operation;
    status = RowStatus.outcome_unknown;
    issue_comment_id = none;
    url = none;
    detail = none;
    created_at = i.now;
    updated_at = i.now;
  }

  -- INSERT ... ON CONFLICT DO NOTHING
  unfoldable pub reserve_row : Store G → Store G
  unfolding insert_or_ignore
  reserve_row s = record s { rows = insert_or_ignore c.dedupe_key reserved_row s.rows }

  abbrev pub with_status :
      RowStatus → (comment_id url detail : Option String) → StoredRow → StoredRow
  with_status status comment_id url detail r = record r {
    status = status;
    issue_comment_id = comment_id;
    url = url;
    detail = detail;
    updated_at = i.now;
  }

  -- `updateRow`
  unfoldable pub update_status :
      RowStatus → (comment_id url detail : Option String) → Store G → Store G
  unfolding update_row
  update_status status comment_id url detail s = record s {
    rows = update_row c.dedupe_key (with_status status comment_id url detail) s.rows;
  }

  -- `assembleBody` for a comment; closing has no body
  abbrev pub delivery : BookkeepingTarget → (token : String) → Delivery
  delivery target token = record {
    target = target;
    operation = c.operation;
    body = elim c.operation [
      | comment ↦ some (assemble_body (elim c.body [ none ↦ "" | some b ↦ b ]) c.evidence_refs)
      | close ↦ none
    ];
    token = token;
  }

  abbrev is_ok : ℕ → Bool
  is_ok n = leb 200 n && leb n 299

  abbrev field_of : (Json → Option String) → String → Option Json → Option String
  field_of read key none = none
  field_of read key (some v) = elim (record_of v) [
    | none ↦ none
    | some m ↦ elim (get key m) [ none ↦ none | some x ↦ read x ]
  ]

  abbrev is_unsure : ℕ → Bool
  is_unsure n = n == 429 || leb 500 n

  unfoldable pub verdict : Option Response → Verdict
  verdict none =
      failed_with RowStatus.outcome_unknown BookkeepingStatus.outcome_unknown "transport_failed"
  verdict (some r) =
      if is_ok r.status
      then record {
        row_status = RowStatus.persisted;
        status = BookkeepingStatus.persisted;
        issue_comment_id = field_of (λ x. some (pf.print x)) "id" r.body;
        url = field_of text_of "html_url" r.body;
        detail = none;
      }
      else if is_unsure r.status
      then failed_with RowStatus.outcome_unknown BookkeepingStatus.outcome_unknown
          (text "github_http_" (pf.print_status r.status))
      else failed_with RowStatus.delivery_blocked BookkeepingStatus.delivery_blocked
          (text "github_refused_http_" (pf.print_status r.status))

  -- the answer of GitHub is stored, then returned
  unfoldable pub settle : BookkeepingTarget → Option Response → Prog (Store G) BookkeepingReply
  settle target r =
      let v = verdict r in
      do
        _ ← exec (update_status v.row_status v.issue_comment_id v.url v.detail)
        done (answer_with v.status (some target) v.issue_comment_id v.url v.detail)

  abbrev pub sent : Delivery → Store G → Store G
  sent d s = record s { github = (pf.deliver d s.github).1 }

  abbrev response_of : Option (Option Response) → Option Response
  response_of none = none
  response_of (some r) = r

  -- behind the reservation
  unfoldable pub deliver_reserved : BookkeepingTarget → Prog (Store G) BookkeepingReply
  deliver_reserved target =
      case_option (truthy i.token)
        (do
          _ ←
              exec
                (update_status RowStatus.delivery_blocked none none (some "token_not_configured"))
          done (
              answer_with BookkeepingStatus.delivery_blocked (some target) none none
                (some "token_not_configured")))
        λ token. do
          answered ←
              batch_result (λ s. some (sent (delivery target token) s))
                (λ s. (pf.deliver (delivery target token) s.github).0)
          settle target (response_of answered)

  -- behind the gates
  unfoldable pub submit_to : BookkeepingTarget → Prog (Store G) BookkeepingReply
  submit_to target = do
    existing ← select select_row
    case_option existing
        (do
          _ ← exec reserve_row
          raced ← select select_row
          case_option raced (done unavailable) λ r.
              when not (r.updated_at == i.now)
              then done (replay_receipt r)
              else deliver_reserved target)
        λ r. done (replay_receipt r)

  abbrev pub is_comment : Operation → Bool
  is_comment comment = true
  is_comment close = false

  abbrev pub is_absent : Option String → Bool
  is_absent none = true
  is_absent (some s) = str_eq s ""

  abbrev pub parsed_targets : Option (List (String × BookkeepingTarget))
  parsed_targets = elim (truthy i.targets_raw) [
    | none ↦ none
    | some raw ↦ parse_targets (pf.json_parse raw)
  ]

  unfoldable pub submit_command : Prog (Store G) BookkeepingReply
  submit_command =
      when is_comment c.operation && is_absent c.body
      then done invalid
      else case_option parsed_targets (done (rejected "bookkeeping targets not configured"))
          λ targets.
            case_option (target_at c.target_key targets)
              (done (rejected "target_key is not whitelisted")) submit_to

-- `submitIssueBookkeeping`
unfoldable pub submit_issue_bookkeeping :
    {G : Type 0} → Platform G → SubmitInput → Prog (Store G) BookkeepingReply
submit_issue_bookkeeping pf i =
    case_option (parse_command i.command) (done invalid) (submit_command pf i)
