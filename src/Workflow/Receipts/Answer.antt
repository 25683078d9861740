-- ===== src/Workflow/Receipts/Answer.antt =====
-- `listResearchJobReceipts` of research-workflow.ts: what a page that is returned has, and what a
-- consumer gets that asks for page after page.
use quantpro_collector.Prelude.{
  ℕ, zero, suc, ◌≡◌, ◌≤◌, refl, ap, sym, subst, ◌∙◌, true, false, Option, none, some, List, [], ◌∷◌,
  String, ltb, all, length, take, arith, filter,
}
use quantpro_collector.Db.Prog.{World, run}
use quantpro_collector.Db.Prog.Ensures.{
  Holds, Ensures, run-Ensures, Ensures-when, Ensures-option, Ensures-bind,
}
use quantpro_collector.Workflow.Receipts.{
  ReceiptTables, ReceiptsPage, ReceiptsInput, ReceiptItem, Numbered, is_after, sort_numbered,
  join_events, limit_of, receipts_max_limit, receipt_rows, receipt_items, next_since,
  list_research_job_receipts,
}
use quantpro_collector.Workflow.Receipts.Order.{all-sort_numbered, all-take, filter-holds}

length-receipt_items :
    (receipt_hash : String → String) (rs : List Numbered)
    → length (receipt_items receipt_hash rs) ≡ length rs
unfolding receipt_items
length-receipt_items receipt_hash [] = refl
length-receipt_items receipt_hash (r ∷ rs) = ap suc (length-receipt_items receipt_hash rs)

length-take : {A : Type 0} (n : ℕ) (xs : List A) → length (take n xs) ≤ n
length-take zero xs = omega arith
length-take (suc n) [] = omega arith
length-take (suc n) (x ∷ xs) = omega (arith, length-take n xs)

-- the next cursor lies behind the one that was asked with
abbrev pub Advances : (since next : Option ℕ) → Type 0
Advances since none = ⊥
Advances none (some n) = Unit
Advances (some c) (some n) = ltb c n ≡ true

-- An empty page has its own cursor, and any other one a later cursor.
abbrev pub HasNext : Option ℕ → List ReceiptItem → Option ℕ → Type 0
HasNext since [] next = next ≡ since
HasNext since (x ∷ xs) next = Advances since next

abbrev pub IsPage : Option ℕ → ReceiptsPage → ReceiptTables → Type 0
IsPage since p t = (length p.receipts ≤ 500) × HasNext since p.receipts p.next_since

Advances-next_since :
    (c : Option ℕ) (n : ℕ) (rs : List Numbered)
    → Advances c (some n)
    → all (is_after c) rs ≡ true
    → Advances c (next_since (some n) rs)
unfolding next_since
Advances-next_since c n [] a h = a
Advances-next_since none n (r ∷ rs) a h = Advances-next_since none r.0 rs tt (ground arith)
Advances-next_since (some c) n (r ∷ rs) a h =
    Advances-next_since (some c) r.0 rs (ground arith) (ground arith)

has_next :
    (receipt_hash : String → String) (c : Option ℕ) (rs : List Numbered)
    → all (is_after c) rs ≡ true
    → HasNext c (receipt_items receipt_hash rs) (next_since c rs)
unfolding receipt_items next_since
has_next receipt_hash c [] h = refl
has_next receipt_hash none (r ∷ rs) h = Advances-next_since none r.0 rs tt (ground arith)
has_next receipt_hash (some c) (r ∷ rs) h =
    Advances-next_since (some c) r.0 rs (ground arith) (ground arith)

receipt_rows-after :
    (limit : ℕ) (c : Option ℕ) (t : ReceiptTables)
    → all (is_after c) (receipt_rows limit c t) ≡ true
unfolding receipt_rows
receipt_rows-after limit c t =
    let rows = filter (is_after c) (join_events t.events t.order) in
    all-take (is_after c) limit (sort_numbered rows) (
      all-sort_numbered (is_after c) rows
      ∙ filter-holds (is_after c) (join_events t.events t.order))

page_bounded :
    (receipt_hash : String → String) (limit : ℕ) (c : Option ℕ) (t : ReceiptTables)
    → ltb receipts_max_limit limit ≡ false
    → length (receipt_items receipt_hash (receipt_rows limit c t)) ≤ 500
unfolding receipt_rows
page_bounded receipt_hash limit c t h =
    let rows = sort_numbered (filter (is_after c) (join_events t.events t.order)) in
    let items = length-receipt_items receipt_hash (take limit rows) in
    let short = length-take limit rows in ground (arith, items, short)

-- the cursor that `decodeReceiptCursor` answers
abbrev pub cursor_of : Option (Option ℕ) → Option ℕ
cursor_of none = none
cursor_of (some c) = c

receipts-IsPage :
    (receipt_hash : String → String) (i : ReceiptsInput) (t : ReceiptTables)
    → Ensures (IsPage (cursor_of i.since)) (list_research_job_receipts receipt_hash i) t
unfolding list_research_job_receipts
receipts-IsPage receipt_hash i t =
    let Q = IsPage (cursor_of i.since) in
    let limit = limit_of i.limit in
    Ensures-option Q _ _ _ t (λ _. tt)
      λ now _.
        Ensures-when Q _ _ _ t (λ _. tt)
          λ _.
            Ensures-when Q _ _ _ t (λ _. tt)
              λ bound.
                Ensures-option Q _ _ _ t (λ _. tt)
                  λ c e. Ensures-bind Q _ _ t (
                    λ u.
                        Ensures-when Q _ _ _ u (λ _. tt)
                          λ _. Ensures-bind Q _ _ u (
                            λ v. (
                              page_bounded receipt_hash limit c v bound,
                              subst
                                  (λ d.
                                    HasNext d (receipt_items receipt_hash (receipt_rows limit c v))
                                      (next_since c (receipt_rows limit c v)))
                                  (sym (ap cursor_of e))
                                  (has_next receipt_hash c (receipt_rows limit c v)
                                    (receipt_rows-after limit c v)),
                            ),
                            λ v. tt,
                          ),
                    λ u. tt,
                  )

-- Whatever other calls do in between and whichever reads fail, a page that is returned has at most
-- 500 receipts; if it has none, its cursor is the one that was asked with, and otherwise its cursor
-- is a later one.
pub list_research_job_receipts-IsPage :
    (receipt_hash : String → String) (w : World ReceiptTables) (i : ReceiptsInput)
    (t : ReceiptTables)
    → Holds (IsPage (cursor_of i.since)) (run w 0 (list_research_job_receipts receipt_hash i) t)
list_research_job_receipts-IsPage receipt_hash w i t =
    run-Ensures _ w 0 (list_research_job_receipts receipt_hash i) t
      (receipts-IsPage receipt_hash i t)
