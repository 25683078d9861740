-- ===== src/Workflow/Receipts/Order.antt =====
-- The order of the receipts of research-workflow.ts, and the cursors in it.
use quantpro_collector.Prelude.{
  ℕ, zero, suc, ◌≤◌, ◌≡◌, refl, ap, Bool, true, false, ◌&&◌, Option, none, some, List, [], ◌∷◌,
  ◌++◌, ltb, take, filter, all, arith, if◌then◌else◌, not, ◌==◌, find?, str_eq, Option-cases, inl,
  inr,
}
use quantpro_collector.Workflow.Rows.{EventRow}
use quantpro_collector.Workflow.Receipts.{
  ReceiptTables, OrderRow, Numbered, is_after, insert_numbered, sort_numbered, join_events,
  next_since,
}

-- every row comes before all that follow it
abbrev pub increasing : List Numbered → Bool
increasing [] = true
increasing (r ∷ rs) = all (λ q. ltb r.0 q.0) rs && increasing rs

-- all numbered events in their order
abbrev pub numbered : ReceiptTables → List Numbered
numbered t = sort_numbered (join_events t.events t.order)

-- `receipt_sequence INTEGER UNIQUE` of the mapping table
abbrev pub distinct_sequences : List OrderRow → Bool
distinct_sequences [] = true
distinct_sequences (o ∷ os) =
    all (λ q. not (o.receipt_sequence == q.receipt_sequence)) os && distinct_sequences os

abbrev distinct_numbers : List Numbered → Bool
distinct_numbers [] = true
distinct_numbers (r ∷ rs) = all (λ q. not (r.0 == q.0)) rs && distinct_numbers rs

all-insert_numbered :
    (p : Numbered → Bool) (r : Numbered) (rs : List Numbered)
    → all p (insert_numbered r rs) ≡ (p r && all p rs)
unfolding insert_numbered
all-insert_numbered p r [] = refl
all-insert_numbered p r (q ∷ qs) = ground (arith, all-insert_numbered p r qs)

pub all-sort_numbered :
    (p : Numbered → Bool) (rs : List Numbered) → all p (sort_numbered rs) ≡ all p rs
unfolding sort_numbered
all-sort_numbered p [] = refl
all-sort_numbered p (r ∷ rs) =
    ground (arith, all-insert_numbered p r (sort_numbered rs), all-sort_numbered p rs)

all_later :
    (m n : ℕ) (rs : List Numbered)
    → ltb m n ≡ true
    → all (λ q. ltb n q.0) rs ≡ true
    → all (λ q. ltb m q.0) rs ≡ true
all_later m n [] l h = refl
all_later m n (r ∷ rs) l h = ground (arith, all_later m n rs)

insert_numbered-increasing :
    (r : Numbered) (rs : List Numbered)
    → increasing rs ≡ true
    → all (λ q. not (r.0 == q.0)) rs ≡ true
    → increasing (insert_numbered r rs) ≡ true
unfolding insert_numbered
insert_numbered-increasing r [] h n = refl
insert_numbered-increasing r (q ∷ qs) h n = ground (
  arith,
  all_later r.0 q.0 qs,
  insert_numbered-increasing r qs,
  all-insert_numbered (λ p. ltb q.0 p.0) r qs,
)

sort_numbered-increasing :
    (rs : List Numbered) → distinct_numbers rs ≡ true → increasing (sort_numbered rs) ≡ true
unfolding sort_numbered
sort_numbered-increasing [] h = refl
sort_numbered-increasing (r ∷ rs) h = ground (
  arith,
  sort_numbered-increasing rs,
  insert_numbered-increasing r (sort_numbered rs),
  all-sort_numbered (λ q. not (r.0 == q.0)) rs,
)

all-join_events :
    (n : ℕ) (events : List EventRow) (order : List OrderRow)
    → all (λ o. not (n == o.receipt_sequence)) order ≡ true
    → all (λ r. not (n == r.0)) (join_events events order) ≡ true
unfolding join_events
all-join_events n events [] h = refl
all-join_events n events (o ∷ os) h =
    elim (Option-cases (find? (λ e. str_eq e.event_id o.event_id) events)) [
      | inl f ↦ ground (arith, f, all-join_events n events os)
      | inr (e, f) ↦ ground (arith, f, all-join_events n events os)
    ]

join_events-distinct :
    (events : List EventRow) (order : List OrderRow)
    → distinct_sequences order ≡ true
    → distinct_numbers (join_events events order) ≡ true
unfolding join_events
join_events-distinct events [] h = refl
join_events-distinct events (o ∷ os) h =
    let rest = join_events-distinct events os in
    let apart = all-join_events o.receipt_sequence events os in
    elim (Option-cases (find? (λ e. str_eq e.event_id o.event_id) events)) [
      | inl f ↦ ground (arith, f, rest)
      | inr (e, f) ↦ ground (arith, f, rest, apart)
    ]

pub numbered-increasing :
    (t : ReceiptTables) → distinct_sequences t.order ≡ true → increasing (numbered t) ≡ true
numbered-increasing t h =
    sort_numbered-increasing (join_events t.events t.order)
      (join_events-distinct t.events t.order h)

filter-insert_numbered :
    (c : Option ℕ) (r : Numbered) (rs : List Numbered)
    → filter (is_after c) (insert_numbered r rs) ≡ (
        if is_after c r then insert_numbered r (filter (is_after c) rs) else filter (is_after c) rs)
unfolding insert_numbered
filter-insert_numbered c r [] = ground arith
filter-insert_numbered none r (q ∷ qs) = ground (arith, filter-insert_numbered none r qs)
filter-insert_numbered (some c) r (q ∷ qs) = ground (arith, filter-insert_numbered (some c) r qs)

pub filter-sort_numbered :
    (c : Option ℕ) (rs : List Numbered)
    → sort_numbered (filter (is_after c) rs) ≡ filter (is_after c) (sort_numbered rs)
unfolding sort_numbered
filter-sort_numbered c [] = refl
filter-sort_numbered c (r ∷ rs) =
    ground (arith, filter-sort_numbered c rs, filter-insert_numbered c r (sort_numbered rs))

abbrev pub rest_after : ℕ → List Numbered → List Numbered
rest_after zero rs = rs
rest_after (suc n) [] = []
rest_after (suc n) (r ∷ rs) = rest_after n rs

pub take-rest_after : (n : ℕ) (rs : List Numbered) → take n rs ++ rest_after n rs ≡ rs
take-rest_after zero rs = refl
take-rest_after (suc n) [] = refl
take-rest_after (suc n) (r ∷ rs) = ap (λ qs. r ∷ qs) (take-rest_after n rs)

filter-all :
    (c : ℕ) (rs : List Numbered)
    → all (λ q. ltb c q.0) rs ≡ true
    → filter (is_after (some c)) rs ≡ rs
filter-all c [] h = refl
filter-all c (r ∷ rs) h = ground (arith, filter-all c rs)

module _ {A : Type 0} where
  pub all-take : (p : A → Bool) (n : ℕ) (xs : List A) → all p xs ≡ true → all p (take n xs) ≡ true
  all-take p zero xs h = refl
  all-take p (suc n) [] h = refl
  all-take p (suc n) (x ∷ xs) h = ground (arith, all-take p n xs)

  all-filter : (p q : A → Bool) (xs : List A) → all p xs ≡ true → all p (filter q xs) ≡ true
  all-filter p q [] h = refl
  all-filter p q (x ∷ xs) h = ground (arith, all-filter p q xs)

  pub filter-holds : (p : A → Bool) (xs : List A) → all p (filter p xs) ≡ true
  filter-holds p [] = refl
  filter-holds p (x ∷ xs) = ground (arith, filter-holds p xs)

  pub filter-filter :
      (p q : A → Bool) (xs : List A)
      → ((x : A) → p x ≡ true → q x ≡ true)
      → filter p (filter q xs) ≡ filter p xs
  filter-filter p q [] h = refl
  filter-filter p q (x ∷ xs) h = ground (arith, filter-filter p q xs h, h x)

pub increasing-take :
    (n : ℕ) (rs : List Numbered) → increasing rs ≡ true → increasing (take n rs) ≡ true
increasing-take zero rs h = refl
increasing-take (suc n) [] h = refl
increasing-take (suc n) (r ∷ rs) h =
    ground (arith, increasing-take n rs, all-take (λ q. ltb r.0 q.0) n rs)

pub increasing-filter :
    (p : Numbered → Bool) (rs : List Numbered)
    → increasing rs ≡ true
    → increasing (filter p rs) ≡ true
increasing-filter p [] h = refl
increasing-filter p (r ∷ rs) h =
    ground (arith, increasing-filter p rs, all-filter (λ q. ltb r.0 q.0) p rs)

-- the cursor only moves on
pub next_since-later :
    (c : Option ℕ) (rs : List Numbered) (q : Numbered)
    → all (is_after c) rs ≡ true
    → increasing rs ≡ true
    → is_after (next_since c rs) q ≡ true
    → is_after c q ≡ true
unfolding next_since
next_since-later c [] q a h e = e
next_since-later none (r ∷ rs) q a h e = refl
next_since-later (some c) (r ∷ rs) q a h e = ground (arith, next_since-later (some r.0) rs q)

next_since-reached :
    (c : ℕ) (r : Numbered) (qs : List Numbered)
    → r.0 ≤ c
    → all (λ q. ltb r.0 q.0) qs ≡ true
    → is_after (next_since (some c) qs) r ≡ false
unfolding next_since
next_since-reached c r [] l a = ground arith
next_since-reached c r (q ∷ qs) l a = ground (arith, next_since-reached q.0 r qs)

pub page_left :
    (n : ℕ) (r : Numbered) (rs : List Numbered)
    → increasing (r ∷ rs) ≡ true
    → filter (is_after (next_since (some r.0) (take n rs))) (r ∷ rs) ≡ rest_after n rs
unfolding next_since
page_left zero r rs h = ground (arith, filter-all r.0 rs)
page_left (suc n) r [] h = ground arith
page_left (suc n) r (q ∷ qs) h = ground (
  arith,
  page_left n q qs,
  next_since-reached q.0 r (take n qs),
  all-take (λ p. ltb r.0 p.0) n qs,
)
