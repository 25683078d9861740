-- ===== src/Issues/Tests.antt =====
-- Issue bookkeeping (src/issue-bookkeeping.ts) at concrete inputs: GitHub takes every request, and
-- keeps them.
use quantpro_collector.Prelude.{◌≡◌, refl, Option, none, some, List, [], ◌∷◌, String}
use quantpro_collector.Json.{Json, null, num, str, obj, end, field}
use quantpro_collector.Db.Table.{lookup}
use quantpro_collector.Db.Prog.{ok, alone, run}
use quantpro_collector.Issues.Command.{
  close, Command, BookkeepingTarget, parse_entries, parse_entry, parse_targets, is_repo,
  is_target_key, target_at, parse_command,
}
use quantpro_collector.Issues.Submit.{submit_to, submit_command, submit_issue_bookkeeping}
use quantpro_collector.Issues.Rows.{Store, Delivery, Response, Platform, SubmitInput}
use quantpro_collector.Issues.Delivery.{
  delivery_outcome, delivered, reply_of, settled_row, overtaken, nowhere, submit_to_race,
  submit_command_inherited,
}
use quantpro_collector.Issues.Twice.{repeated, submit_issue_bookkeeping_twice}

abbrev Sent : Type 0
Sent = List Delivery

abbrev created : Option Response
created = some (record { status = 201; body = none })

-- a whitelist with one entry
abbrev targets : Json
targets =
    obj (field "daily" (obj (field "repo" (str "owner/name") (field "issue" (num 7) end))) end)

abbrev platform : Platform Sent
platform = record {
  deliver = λ d sent. (created, d ∷ sent);
  print = λ v. "id";
  print_status = λ n. "status";
  json_parse = λ s. some targets;
}

abbrev input : SubmitInput
input = record { command = null; token = some "token"; targets_raw = some "targets"; now = 100 }

abbrev command : String → Command
command key = record {
  source_task = "company-facts";
  target_key = key;
  operation = close;
  dedupe_key = "dedupe-0001";
  body = none;
  evidence_refs = none;
}

abbrev target : BookkeepingTarget
target = record { repo = some "owner/name"; issue = some 7 }

abbrev closing : BookkeepingTarget → Delivery
closing t = record { target = t; operation = close; body = none; token = "token" }

abbrev no_rows : Store Sent
no_rows = record { rows = []; github = [] }

abbrev daily : Command
daily = command "daily"

-- what the schema reads as this command
abbrev asked : SubmitInput
asked = record input {
  command = obj (
      field "source_task" (str "company-facts") (
        field "target_key" (str "daily")
          (field "operation" (str "CLOSE") (field "dedupe_key" (str "dedupe-0001") end))));
}

-- without a whitelist
abbrev unlisted : SubmitInput
unlisted = record asked { targets_raw = none }

-- the later command is refused at the whitelist, and changes nothing
submit_issue_bookkeeping_twice_example :
    let x = delivery_outcome platform asked daily target [] in
    let after = delivered platform asked daily target no_rows in
    (run alone 0 (submit_issue_bookkeeping platform asked) no_rows
      ≡ (ok (reply_of platform asked daily target x.0), after))
    × (after.github ≡ closing target ∷ [])
    × (lookup "dedupe-0001" after.rows ≡ some (settled_row platform asked daily x.0))
    × (run alone 0 (submit_issue_bookkeeping platform unlisted) after
        ≡ (ok (repeated platform unlisted daily (settled_row platform asked daily x.0)), after))
unfolding lookup parse_targets parse_entries parse_entry is_repo is_target_key target_at
    parse_command
submit_issue_bookkeeping_twice_example =
    submit_issue_bookkeeping_twice platform asked unlisted daily daily target no_rows refl refl refl
      refl refl

submit_to_race_example :
    let between = λ (x : Store Sent). (run alone 0 (submit_to platform input daily target) x).1 in
    (run
      (overtaken platform input daily between)
      0
      (submit_to platform input daily target)
      no_rows).1.github
    ≡ closing target ∷ closing target ∷ []
unfolding lookup
submit_to_race_example =
    submit_to_race platform input input daily daily target target no_rows refl refl refl

submit_command_inherited_example :
    run alone 0 (submit_command platform input (command "constructor")) no_rows ≡ (
      ok (
          reply_of platform input
            (command "constructor")
            nowhere
            (delivery_outcome platform input (command "constructor") nowhere []).0),
      delivered platform input (command "constructor") nowhere no_rows,
    )
unfolding lookup parse_targets parse_entries parse_entry is_repo is_target_key
submit_command_inherited_example =
    submit_command_inherited platform input (command "constructor") (("daily", target) ∷ []) no_rows
      refl refl refl refl refl
