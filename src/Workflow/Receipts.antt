-- ===== src/Workflow/Receipts.antt =====
-- `listResearchJobReceipts` of research-workflow.ts. Its tables are the events and the mapping
-- that numbers them; the cursor is the model's after `decodeReceiptCursor`.
pub mod Order
pub mod Paging
pub mod Answer
pub mod Followed
use quantpro_collector.Prelude.{
  ℕ, zero, suc, ◌+◌, Bool, true, false, not, ◌&&◌, Option, none, some, List, [], ◌∷◌, String,
  str_eq, ltb, leb, ◌==◌, length, take, filter, find?, any, if◌then◌else◌,
}
use quantpro_collector.Db.Prog.{
  Prog, done, fail, read_catch, store_unavailable, integrity_failed, case_option, when◌then◌else◌,
  ◌>>=◌,
}
use quantpro_collector.Workflow.Tables.{tagged}
use quantpro_collector.Workflow.Rows.{EventRow, EventType, EventReason, ResearchOrigin}

-- a row of `research_receipt_event_order`
pub record OrderRow : Type 0 where
  pub event_id : String
  pub epoch : String
  pub receipt_sequence : ℕ

pub record ReceiptTables : Type 0 where
  pub events : List EventRow
  pub order : List OrderRow

abbrev pub receipt_order_epoch : String
receipt_order_epoch = "receipt-order-v3-2026-09-15"

abbrev pub receipts_max_limit : ℕ
receipts_max_limit = 500

abbrev pub has_event : String → List EventRow → Bool
has_event id events = any (λ e. str_eq e.event_id id) events

abbrev pub is_numbered : String → List OrderRow → Bool
is_numbered id order = any (λ o. str_eq o.event_id id && str_eq o.epoch receipt_order_epoch) order

-- the two counts of the mapping check
unfoldable pub missing : ReceiptTables → ℕ
missing t = length (filter (λ e. not (is_numbered e.event_id t.order)) t.events)

unfoldable pub orphaned : ReceiptTables → ℕ
orphaned t = length (
    filter (λ o. str_eq o.epoch receipt_order_epoch && not (has_event o.event_id t.events)) t.order)

abbrev pub Numbered : Type 0
Numbered = ℕ × EventRow

-- the join of the mapping with the events
unfoldable pub join_events : List EventRow → List OrderRow → List Numbered
join_events events [] = []
join_events events (o ∷ os) =
    let rest = join_events events os in
    if str_eq o.epoch receipt_order_epoch
    then (elim (find? (λ e. str_eq e.event_id o.event_id) events) [
      | none ↦ rest
      | some e ↦ (o.receipt_sequence, e) ∷ rest
    ])
    else rest

-- ORDER BY receipt_sequence
unfoldable pub insert_numbered : Numbered → List Numbered → List Numbered
insert_numbered r [] = r ∷ []
insert_numbered r (q ∷ qs) = if ltb r.0 q.0 then r ∷ q ∷ qs else q ∷ insert_numbered r qs

unfoldable pub sort_numbered : List Numbered → List Numbered
sort_numbered [] = []
sort_numbered (r ∷ rs) = insert_numbered r (sort_numbered rs)

-- `receipt_sequence > cursor`, where there is a cursor
abbrev pub is_after : Option ℕ → Numbered → Bool
is_after none r = true
is_after (some c) r = ltb c r.0

-- the page query
unfoldable pub receipt_rows : (limit : ℕ) → Option ℕ → ReceiptTables → List Numbered
unfolding join_events sort_numbered
receipt_rows limit cursor t =
    take limit (sort_numbered (filter (is_after cursor) (join_events t.events t.order)))

-- the last row's sequence, or the caller's cursor
unfoldable pub next_since : Option ℕ → List Numbered → Option ℕ
next_since since [] = since
next_since since (r ∷ rs) = next_since (some r.0) rs

pub record ReceiptItem : Type 0 where
  pub receipt_id : String
  pub job_id : String
  pub event_type : EventType
  pub occurred_at : ℕ
  pub actor : String
  pub proposal_id : Option String
  pub origin : Option ResearchOrigin
  pub request_id : String
  pub reason : Option EventReason

-- `receipt_hash` is the first forty digits of the hash of an event's id.
unfoldable pub receipt_items : (String → String) → List Numbered → List ReceiptItem
receipt_items receipt_hash [] = []
receipt_items receipt_hash (r ∷ rs) =
    record {
      receipt_id = tagged "rcpt_" (receipt_hash r.1.event_id);
      job_id = r.1.job_id;
      event_type = r.1.event_type;
      occurred_at = r.1.created_at;
      actor = r.1.actor;
      proposal_id = r.1.proposal_id;
      origin = r.1.origin;
      request_id = r.1.request_id;
      reason = r.1.reason;
    }
    ∷ receipt_items receipt_hash rs

pub record ReceiptsPage : Type 0 where
  pub generated_at : ℕ
  pub next_since : Option ℕ
  pub receipts : List ReceiptItem

-- `since` is what `decodeReceiptCursor` answers; `none` stands for its failure.
pub record ReceiptsInput : Type 0 where
  pub since : Option (Option ℕ)
  pub limit : Option ℕ
  pub now : Option ℕ

abbrev pub limit_of : Option ℕ → ℕ
limit_of none = receipts_max_limit
limit_of (some n) = n

unfoldable pub list_research_job_receipts :
    (String → String) → ReceiptsInput → Prog ReceiptTables ReceiptsPage
unfolding missing orphaned receipt_rows next_since receipt_items
list_research_job_receipts receipt_hash i =
    let limit = limit_of i.limit in
    case_option i.now (fail integrity_failed) λ now.
      when ltb limit 1
      then fail integrity_failed
      else when ltb receipts_max_limit limit
      then fail integrity_failed
      else case_option i.since (fail integrity_failed) λ cursor. do
        intact ← read_catch (λ t. done (missing t == 0 && orphaned t == 0)) (fail store_unavailable)
        when not intact then fail store_unavailable else (do
          rows ← read_catch (λ t. done (receipt_rows limit cursor t)) (fail store_unavailable)
          done (record {
            generated_at = now;
            next_since = next_since cursor rows;
            receipts = receipt_items receipt_hash rows;
          }))
