-- ===== src/Workflow/Receipts/Followed.antt =====
-- A consumer of `listResearchJobReceipts` (research-workflow.ts) that asks for page after page, each
-- time with the cursor of the page before.
use quantpro_collector.Prelude.{
  ℕ, zero, suc, ◌≡◌, ◌≤◌, refl, ap, sym, ◌∙◌, Bool, true, false, not, ◌&&◌, ◌==◌, Option, none,
  some, List, [], ◌∷◌, ◌++◌, String, ltb, any, str_eq, map, length, arith,
}
use quantpro_collector.Db.Prog.{
  Prog, Reply, ok, err, outage, alone, run, ◌>>=◌, case_option, when◌then◌else◌,
}
use quantpro_collector.Workflow.Tables.{tagged}
use quantpro_collector.Workflow.Rows.{EventType, EventReason, ResearchOrigin}
use quantpro_collector.Workflow.Receipts.{
  ReceiptTables, ReceiptsPage, ReceiptItem, Numbered, receipt_rows, receipt_items, next_since,
  missing, orphaned, has_event, list_research_job_receipts,
}
use quantpro_collector.Workflow.Receipts.Order.{numbered, increasing, distinct_sequences}
use quantpro_collector.Workflow.Receipts.Paging.{follow_receipts, follow_receipts-numbered}

passed :
    {S A : Type 0} (b : Bool) (m k : Prog S A) (s : S)
    → b ≡ false
    → run alone 1 (when b then m else k) s ≡ run alone 1 k s
unfolding when◌then◌else◌
passed b m k s h = rw h refl

module _ (receipt_hash : String → String) where
  -- what a receipt says, and what the receipt of an event is to say
  abbrev pub Facts : Type 0
  Facts =
      String
      × String
      × EventType
      × ℕ
      × String
      × Option String
      × Option ResearchOrigin
      × String
      × Option EventReason

  abbrev pub said : ReceiptItem → Facts
  said x = (
    x.receipt_id, x.job_id, x.event_type, x.occurred_at, x.actor, x.proposal_id, x.origin,
    x.request_id, x.reason,
  )

  abbrev pub to_say : Numbered → Facts
  to_say (n, e) = (
    tagged "rcpt_" (receipt_hash e.event_id),
    e.job_id,
    e.event_type,
    e.created_at,
    e.actor,
    e.proposal_id,
    e.origin,
    e.request_id,
    e.reason,
  )

  abbrev page_and : Reply ReceiptsPage → (Option ℕ → List ReceiptItem) → List ReceiptItem
  page_and (ok p) more = p.receipts ++ more p.next_since
  page_and (err e) more = []
  page_and outage more = []

  -- the receipts of so many pages
  unfoldable pub follow_pages :
      ℕ → (limit now : ℕ) → (since : Option ℕ) → ReceiptTables → List ReceiptItem
  follow_pages zero limit now since t = []
  follow_pages (suc fuel) limit now since t =
      page_and
        (run alone 0
          (list_research_job_receipts receipt_hash
            (record { since = some since; limit = some limit; now = some now }))
          t).0
        (λ next. follow_pages fuel limit now next t)

  list_research_job_receipts-alone :
      (m now : ℕ) (since : Option ℕ) (t : ReceiptTables)
      → missing t ≡ 0
      → orphaned t ≡ 0
      → suc m ≤ 500
      → run alone 0
          (list_research_job_receipts receipt_hash
            (record { since = some since; limit = some (suc m); now = some now }))
          t
        ≡ (
          ok (record {
            generated_at = now;
            next_since = next_since since (receipt_rows (suc m) since t);
            receipts = receipt_items receipt_hash (receipt_rows (suc m) since t);
          }),
          t,
        )
  unfolding list_research_job_receipts run ◌>>=◌ case_option when◌then◌else◌
  list_research_job_receipts-alone m now since t n o b =
      let small : ltb 500 (suc m) ≡ false = ground arith in
      let some_rows : ltb (suc m) 1 ≡ false = ground arith in
      let intact : not (missing t == 0 && orphaned t == 0) ≡ false = ground (arith, n, o) in
      simp (small, some_rows) (passed _ _ _ t intact)

  receipt_items-append :
      (rs qs : List Numbered)
      → receipt_items receipt_hash (rs ++ qs)
        ≡ receipt_items receipt_hash rs ++ receipt_items receipt_hash qs
  unfolding receipt_items
  receipt_items-append [] qs = refl
  receipt_items-append (r ∷ rs) qs =
      ap (λ xs. receipt_items receipt_hash (r ∷ []) ++ xs) (receipt_items-append rs qs)

  follow_pages-rows :
      (fuel m now : ℕ) (since : Option ℕ) (t : ReceiptTables)
      → missing t ≡ 0
      → orphaned t ≡ 0
      → suc m ≤ 500
      → follow_pages fuel (suc m) now since t
        ≡ receipt_items receipt_hash (follow_receipts fuel (suc m) since t)
  unfolding follow_pages follow_receipts receipt_items
  follow_pages-rows zero m now since t n o b = refl
  follow_pages-rows (suc fuel) m now since t n o b =
      let rows = receipt_rows (suc m) since t in
      ap (λ x. page_and x.0 (λ next. follow_pages fuel (suc m) now next t))
        (list_research_job_receipts-alone m now since t n o b)
      ∙ ap (λ xs. receipt_items receipt_hash rows ++ xs)
          (follow_pages-rows fuel m now (next_since since rows) t n o b)
      ∙ sym (receipt_items-append rows (follow_receipts fuel (suc m) (next_since since rows) t))

  said-receipt_items :
      (rs : List Numbered) → map said (receipt_items receipt_hash rs) ≡ map to_say rs
  unfolding receipt_items
  said-receipt_items [] = refl
  said-receipt_items (r ∷ rs) = ap (λ xs. to_say r ∷ xs) (said-receipt_items rs)

  -- With nothing else running and no access failing, on tables that pass the mapping check and whose
  -- sequence numbers are distinct: a consumer that starts without a cursor and asks with the cursor
  -- of each page for the next one, for at least as many pages as there are rows, with a page size up
  -- to 500, gets the receipts of all numbered events and each once. They say what the events say,
  -- they come in the order of the numbers, and an event is among them exactly if it is stored.
  pub follow_pages-numbered :
      (fuel m now : ℕ) (id : String) (t : ReceiptTables)
      → missing t ≡ 0
      → orphaned t ≡ 0
      → distinct_sequences t.order ≡ true
      → suc m ≤ 500
      → length (numbered t) ≤ fuel
      → (map said (follow_pages fuel (suc m) now none t) ≡ map to_say (numbered t))
        × (increasing (numbered t) ≡ true)
        × (any (λ r. str_eq r.1.event_id id) (numbered t) ≡ has_event id t.events)
  follow_pages-numbered fuel m now id t n o d b l =
      let (all_rows, sorted, stored) = follow_receipts-numbered fuel m id t n d l in
      (
        ap (map said) (follow_pages-rows fuel m now none t n o b)
            ∙ said-receipt_items (follow_receipts fuel (suc m) none t)
            ∙ ap (map to_say) all_rows,
        ap increasing (sym all_rows) ∙ sorted,
        ap (any (λ r. str_eq r.1.event_id id)) (sym all_rows) ∙ stored,
      )
