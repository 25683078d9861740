-- ===== src/Workflow/Receipts/Paging.antt =====
-- The receipt pages of research-workflow.ts: a consumer that follows the cursors misses no event
-- and gets none twice.
use quantpro_collector.Prelude.{
  ℕ, zero, suc, ◌-◌, ◌≤◌, ◌≡◌, refl, sym, ◌∙◌, ap, Bool, true, false, not, ◌&&◌, ◌||◌, Option, none,
  some, List, [], ◌∷◌, ◌++◌, String, str_eq, eq_iff, length, take, filter, find?, any, arith,
  Option-cases, inl, inr,
}
use quantpro_collector.Workflow.Rows.{EventRow}
use quantpro_collector.Workflow.Receipts.{
  OrderRow, ReceiptTables, Numbered, is_after, insert_numbered, sort_numbered, join_events,
  receipt_rows, next_since, missing, has_event, is_numbered,
}
use quantpro_collector.Workflow.Receipts.Order.{
  distinct_sequences, numbered-increasing, increasing, numbered, rest_after, take-rest_after,
  filter-holds, filter-filter, filter-sort_numbered, next_since-later, page_left, increasing-filter,
  increasing-take, all-take,
}

-- a consumer that asks for page after page, for so many pages
unfoldable pub follow_receipts : ℕ → (limit : ℕ) → Option ℕ → ReceiptTables → List Numbered
follow_receipts zero limit cursor t = []
follow_receipts (suc fuel) limit cursor t =
    let rows = receipt_rows limit cursor t in
    rows ++ follow_receipts fuel limit (next_since cursor rows) t

receipt_rows-numbered :
    (limit : ℕ) (c : Option ℕ) (t : ReceiptTables)
    → receipt_rows limit c t ≡ take limit (filter (is_after c) (numbered t))
unfolding receipt_rows
receipt_rows-numbered limit c t =
    ap (take limit) (filter-sort_numbered c (join_events t.events t.order))

length-rest_after : (n : ℕ) (rs : List Numbered) → length (rest_after n rs) ≡ length rs - n
length-rest_after zero rs = omega arith
length-rest_after (suc n) [] = omega arith
length-rest_after (suc n) (r ∷ rs) = omega (arith, length-rest_after n rs)

none_left : (rs : List Numbered) → length rs ≤ 0 → [] ≡ rs
none_left [] h = refl
none_left (r ∷ rs) h = ground arith

-- what the cursor of a page leaves of the rows that the page was taken from
page_leaves :
    (m : ℕ) (c : Option ℕ) (rs : List Numbered)
    → increasing rs ≡ true
    → filter (is_after (next_since c (take (suc m) rs))) rs ≡ rest_after (suc m) rs
unfolding next_since
page_leaves m c [] h = refl
page_leaves m c (r ∷ rs) h = page_left m r rs h

next_rows :
    (m : ℕ) (c : Option ℕ) (ns : List Numbered)
    → increasing ns ≡ true
    → let rs = filter (is_after c) ns in
      filter (is_after (next_since c (take (suc m) rs))) ns ≡ rest_after (suc m) rs
next_rows m c ns h =
    let rs = filter (is_after c) ns in
    let sorted = increasing-filter (is_after c) ns h in
    let page = take (suc m) rs in
    sym (
      filter-filter (is_after (next_since c page)) (is_after c) ns λ q.
        next_since-later c page q (all-take (is_after c) (suc m) rs (filter-holds (is_after c) ns))
          (increasing-take (suc m) rs sorted))
    ∙ page_leaves m c rs sorted

follow_receipts-after :
    (fuel m : ℕ) (c : Option ℕ) (t : ReceiptTables)
    → increasing (numbered t) ≡ true
    → length (filter (is_after c) (numbered t)) ≤ fuel
    → follow_receipts fuel (suc m) c t ≡ filter (is_after c) (numbered t)
unfolding follow_receipts
follow_receipts-after zero m c t h l = none_left _ l
follow_receipts-after (suc fuel) m c t h l =
    let rs = filter (is_after c) (numbered t) in
    let next = next_rows m c (numbered t) h in
    let count = length-rest_after (suc m) rs in
    ap (λ rows. rows ++ follow_receipts fuel (suc m) (next_since c rows) t)
      (receipt_rows-numbered (suc m) c t)
    ∙ ap (λ qs. take (suc m) rs ++ qs)
        (follow_receipts-after fuel m (next_since c (take (suc m) rs)) t h
            (omega (arith, ap length next, count))
          ∙ next)
    ∙ take-rest_after (suc m) rs

abbrev shows : String → List Numbered → Bool
shows id rs = any (λ r. str_eq r.1.event_id id) rs

filter-none : (rs : List Numbered) → filter (is_after none) rs ≡ rs
filter-none [] = refl
filter-none (r ∷ rs) = ap (λ qs. r ∷ qs) (filter-none rs)

shows-insert_numbered :
    (id : String) (r : Numbered) (rs : List Numbered)
    → shows id (insert_numbered r rs) ≡ (str_eq r.1.event_id id || shows id rs)
unfolding insert_numbered
shows-insert_numbered id r [] = refl
shows-insert_numbered id r (q ∷ qs) = ground (arith, shows-insert_numbered id r qs)

shows-sort_numbered : (id : String) (rs : List Numbered) → shows id (sort_numbered rs) ≡ shows id rs
unfolding sort_numbered
shows-sort_numbered id [] = refl
shows-sort_numbered id (r ∷ rs) =
    ground (arith, shows-sort_numbered id rs, shows-insert_numbered id r (sort_numbered rs))

find_event-none :
    (id : String) (events : List EventRow)
    → find? (λ e. str_eq e.event_id id) events ≡ none
    → has_event id events ≡ false
find_event-none id [] h = refl
find_event-none id (e ∷ es) h = ground (arith, find_event-none id es)

find_event-some :
    (id : String) (events : List EventRow) (found : EventRow)
    → find? (λ e. str_eq e.event_id id) events ≡ some found
    → (found.event_id ≡ id) × (has_event id events ≡ true)
find_event-some id [] found h = absurd (ground arith)
find_event-some id (e ∷ es) found h =
    ground (arith, eq_iff e.event_id id, find_event-some id es found)

shows-join_events :
    (id : String) (events : List EventRow) (order : List OrderRow)
    → shows id (join_events events order) ≡ (is_numbered id order && has_event id events)
unfolding join_events
shows-join_events id events [] = refl
shows-join_events id events (o ∷ os) =
    let rest = shows-join_events id events os in
    elim (Option-cases (find? (λ e. str_eq e.event_id o.event_id) events)) [
      | inl h ↦ ground (arith, rest, h, eq_iff o.event_id id, find_event-none o.event_id events h)
      | inr (found, h) ↦
          ground (arith, rest, h, eq_iff o.event_id id, find_event-some o.event_id events found h)
    ]

all_numbered :
    (id : String) (order : List OrderRow) (events : List EventRow)
    → length (filter (λ e. not (is_numbered e.event_id order)) events) ≡ 0
    → has_event id events ≡ true
    → is_numbered id order ≡ true
all_numbered id order [] n h = ground arith
all_numbered id order (e ∷ es) n h = ground (arith, eq_iff e.event_id id, all_numbered id order es)

-- If the mapping check finds no event without a number and the numbers of the mapping are distinct,
-- a consumer that starts without a cursor and follows the cursors, for at least as many pages as
-- there are rows, is given all rows once, whatever the page size; their numbers increase, and an
-- event is among them exactly if it is stored.
pub follow_receipts-numbered :
    (fuel m : ℕ) (id : String) (t : ReceiptTables)
    → missing t ≡ 0
    → distinct_sequences t.order ≡ true
    → length (numbered t) ≤ fuel
    → (follow_receipts fuel (suc m) none t ≡ numbered t)
      × (increasing (follow_receipts fuel (suc m) none t) ≡ true)
      × (any (λ r. str_eq r.1.event_id id) (follow_receipts fuel (suc m) none t)
          ≡ has_event id t.events)
unfolding missing
follow_receipts-numbered fuel m id t n d l =
    let whole = filter-none (numbered t) in
    let sorted = numbered-increasing t d in
    let all_rows =
      follow_receipts-after fuel m none t sorted (omega (arith, ap length whole)) ∙ whole in
    (
      all_rows,
      ap increasing all_rows ∙ sorted,
      ap (shows id) all_rows
          ∙ shows-sort_numbered id (join_events t.events t.order)
          ∙ shows-join_events id t.events t.order
          ∙ ground (arith, all_numbered id t.order t.events n),
    )
