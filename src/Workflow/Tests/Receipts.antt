-- ===== src/Workflow/Tests/Receipts.antt =====
-- Runs of `listResearchJobReceipts` (src/research-workflow.ts) on two events.
use quantpro_collector.Prelude.{
  ◌≡◌, refl, true, none, some, [], ◌∷◌, String, any, str_eq, map, arith,
}
use quantpro_collector.Db.Prog.{ok, alone, run, ◌>>=◌, case_option, when◌then◌else◌}
use quantpro_collector.Workflow.Rows.{EventRow, EventType}
use quantpro_collector.Workflow.Receipts.{
  ReceiptTables, receipt_order_epoch, missing, orphaned, join_events, sort_numbered,
  insert_numbered, receipt_rows, next_since, receipt_items, ReceiptsInput,
  list_research_job_receipts,
}
use quantpro_collector.Db.Prog.Ensures.{Holds}
use quantpro_collector.Workflow.Receipts.Answer.{IsPage, list_research_job_receipts-IsPage}
use quantpro_collector.Workflow.Receipts.Order.{numbered, increasing}
use quantpro_collector.Workflow.Receipts.Followed.{
  said, to_say, follow_pages, follow_pages-numbered,
}

abbrev event : String → EventRow
event id = record {
  event_id = id;
  job_id = "job";
  event_type = EventType.claimed;
  actor = "worker";
  proposal_id = none;
  origin = none;
  reason = none;
  sub_reason = none;
  request_id = "request";
  created_at = 100;
}

-- the second event has the smaller number
abbrev two_events : ReceiptTables
two_events = record {
  events = event "a" ∷ event "b" ∷ [];
  order =
      record { event_id = "a"; epoch = receipt_order_epoch; receipt_sequence = 9 }
      ∷ record { event_id = "b"; epoch = receipt_order_epoch; receipt_sequence = 4 }
      ∷ [];
}

follow_pages-numbered_example :
    (map (said (λ id. id)) (follow_pages (λ id. id) 2 1 100 none two_events)
      ≡ map (to_say (λ id. id)) ((4, event "b") ∷ (9, event "a") ∷ []))
    × (increasing ((4, event "b") ∷ (9, event "a") ∷ []) ≡ true)
    × (any (λ r. str_eq r.1.event_id "a") (numbered two_events) ≡ true)
unfolding missing orphaned join_events sort_numbered insert_numbered
follow_pages-numbered_example =
    follow_pages-numbered (λ id. id) 2 0 100 "a" two_events refl refl refl (omega arith)
      (omega arith)

abbrev input : ReceiptsInput
input = record { since = some (some 4); limit = some 1; now = some 100 }

-- the page behind the first event
second_page : run alone 0 (list_research_job_receipts (λ id. id) input) two_events ≡ (
  ok (record {
    generated_at = 100;
    next_since = some 9;
    receipts = receipt_items (λ id. id) ((9, event "a") ∷ []);
  }),
  two_events,
)
unfolding list_research_job_receipts missing orphaned join_events sort_numbered insert_numbered
    receipt_rows next_since receipt_items run ◌>>=◌ case_option when◌then◌else◌
second_page = refl

list_research_job_receipts-IsPage_example :
    Holds (IsPage (some 4)) (run alone 0 (list_research_job_receipts (λ id. id) input) two_events)
list_research_job_receipts-IsPage_example =
    list_research_job_receipts-IsPage (λ id. id) alone input two_events
