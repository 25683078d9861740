-- ===== src/Runs/History.antt =====
-- What becomes of the rows of `automation_runs_v3` over any calls of `src/run-envelope.ts`.
use quantpro_collector.Prelude.{
  if_intro, ◌+◌, ◌≤◌, ◌≡◌, refl, ap, subst, ◌∙◌, Bool, true, false, ◌&&◌, Option, none, some, List,
  [], ◌∷◌, ◌++◌, map, String, eq_iff, length, filter, any, find?, arith, if◌then◌else◌, Bool-cases,
  inl, inr,
}
use mathlib.Core.Option.{some-injective}
use quantpro_collector.Runs.Rows.{
  StoredRun, RunStore, RunEnd, is_unknown, has_key, has_id, read_run, holds_run, insert_run,
  update_run, end_row,
}

-- A run keeps its id, and once it is over its row is final.
abbrev pub Follows : Option StoredRun → Option StoredRun → Type 0
Follows none now = Unit
Follows (some r) none = ⊥
Follows (some r) (some q) = (q.run_id ≡ r.run_id) × (is_unknown r.outcome ≡ false → q ≡ r)

module _ {R : Type 0} where
  abbrev pub rows_of : (task key : String) → RunStore R → List StoredRun
  rows_of task key s = filter (has_key task key) s.runs

  pub record History (before after : RunStore R) : Type 0 where
    pub follows : (task key : String) → Follows (read_run task key before) (read_run task key after)
    -- an envelope has at most one run
    pub unique : (task key : String) → length (rows_of task key after) ≤ 1

module _ {A : Type 0} (p : A → Bool) where
  pub find_append :
      (xs ys : List A)
      → find? p (xs ++ ys)
        ≡ elim (find? p xs) as (λ _. Option A) [ none ↦ find? p ys | some a ↦ some a ]
  find_append [] ys = refl
  find_append (x ∷ xs) ys = ground (arith, find_append xs ys)

  length-filter-snoc :
      (xs : List A) (y : A)
      → length (filter p (xs ++ y ∷ [])) ≡ length (filter p xs) + (if p y then 1 else 0)
  length-filter-snoc [] y = ground arith
  length-filter-snoc (x ∷ xs) y = ground (arith, length-filter-snoc xs y)

  none_found : (xs : List A) → any p xs ≡ false → length (filter p xs) ≡ 0
  none_found [] h = refl
  none_found (x ∷ xs) h = ground (arith, none_found xs)

module _ {A : Type 0} (p : A → Bool) (f : A → A) (same : (x : A) → p (f x) ≡ p x) where
  abbrev pub mapped : Option A → Option A
  mapped none = none
  mapped (some x) = some (f x)

  pub find-map : (xs : List A) → find? p (map f xs) ≡ mapped (find? p xs)
  find-map [] = refl
  find-map (x ∷ xs) = ground (arith, find-map xs, same x)

  length-filter-map : (xs : List A) → length (filter p (map f xs)) ≡ length (filter p xs)
  length-filter-map [] = refl
  length-filter-map (x ∷ xs) = ground (arith, length-filter-map xs, same x)

pub end_row-key :
    (task id : String) (e : RunEnd) (t k : String) (r : StoredRun)
    → has_key t k (end_row task id e r) ≡ has_key t k r
unfolding end_row
end_row-key task id e t k r =
    if_intro (λ q. has_key t k q ≡ has_key t k r) (has_id task id r && is_unknown r.outcome)
      (λ _. refl) (λ _. refl)

end_row-Follows :
    (task id : String) (e : RunEnd) (r : StoredRun) → Follows (some r) (some (end_row task id e r))
unfolding end_row
end_row-Follows task id e r =
    if_intro (λ q. Follows (some r) (some q)) (has_id task id r && is_unknown r.outcome)
      (λ h. (refl, λ o. absurd (ground (arith, h, o)))) (λ h. (refl, λ o. refl))

Follows-refl : (x : Option StoredRun) → Follows x x
Follows-refl none = tt
Follows-refl (some r) = (refl, λ o. refl)

Follows-trans : (x y z : Option StoredRun) → Follows x y → Follows y z → Follows x z
Follows-trans none y z f g = tt
Follows-trans (some r) none z f g = absurd f
Follows-trans (some r) (some q) none f g = g
Follows-trans (some r) (some q) (some p) (f, f') (g, g') =
    (g ∙ f, λ o. g' (ap (λ x. is_unknown x.outcome) (f' o) ∙ o) ∙ f' o)

mapped_Follows :
    (t k task id : String) (e : RunEnd) (x : Option StoredRun)
    → Follows x (mapped (has_key t k) (end_row task id e) (end_row-key task id e t k) x)
mapped_Follows t k task id e none = tt
mapped_Follows t k task id e (some r) = end_row-Follows task id e r

found_Follows :
    (x y : Option StoredRun)
    → Follows x (elim x as (λ _. Option StoredRun) [ none ↦ y | some a ↦ some a ])
found_Follows none y = tt
found_Follows (some r) y = Follows-refl (some r)

-- a row with the key is the one that was not there
none_yet :
    (r : StoredRun) (rs : List StoredRun) (t k : String)
    → any (has_key r.task_name r.envelope_key) rs ≡ false
    → has_key t k r ≡ true
    → length (filter (has_key t k) rs) ≡ 0
none_yet r rs t k f h =
    let same : (r.task_name ≡ t) × (r.envelope_key ≡ k) =
      ground (arith, h, eq_iff r.task_name t, eq_iff r.envelope_key k) in
    none_found (has_key t k) rs (
      subst (λ x. any (has_key x k) rs ≡ false) same.0
        (subst (λ x. any (has_key r.task_name x) rs ≡ false) same.1 f))

one_more :
    (r : StoredRun) (rs : List StoredRun) (t k : String)
    → any (has_key r.task_name r.envelope_key) rs ≡ false
    → length (filter (has_key t k) rs) ≤ 1
    → length (filter (has_key t k) (rs ++ r ∷ [])) ≤ 1
one_more r rs t k f u = elim (Bool-cases (has_key t k r)) [
  | inl h ↦ rw (length-filter-snoc (has_key t k) rs r, h, none_yet r rs t k f h) (omega arith)
  | inr h ↦ rw (length-filter-snoc (has_key t k) rs r, h) (omega (arith, u))
]

module _ {R : Type 0} {before : RunStore R} where
  -- a change of the runs that lets every row follow and adds no second one
  History-step :
      (s t : RunStore R)
      → ((task key : String) → Follows (read_run task key s) (read_run task key t))
      → ((task key : String) → length (rows_of task key s) ≤ 1 → length (rows_of task key t) ≤ 1)
      → History before s
      → History before t
  History-step s t f u h = record {
    follows = λ task key.
        Follows-trans (read_run task key before) (read_run task key s) (read_run task key t)
          (h.follows task key) (f task key);
    unique = λ task key. u task key (h.unique task key);
  }

  pub History-update_run :
      (task id : String) (e : RunEnd) (s : RunStore R)
      → History before s
      → History before (update_run task id e s)
  unfolding update_run read_run
  History-update_run task id e s =
      History-step s (update_run task id e s)
        (λ t k.
          rw (find-map (has_key t k) (end_row task id e) (end_row-key task id e t k) s.runs)
            (mapped_Follows t k task id e (find? (has_key t k) s.runs)))
        (λ t k h. omega (
          arith,
          h,
          length-filter-map (has_key t k) (end_row task id e) (end_row-key task id e t k) s.runs,
        ))

  History-append :
      (r : StoredRun) (s : RunStore R)
      → any (has_key r.task_name r.envelope_key) s.runs ≡ false
      → History before s
      → History before (record s { runs = s.runs ++ r ∷ [] })
  unfolding read_run
  History-append r s f =
      History-step s (record s { runs = s.runs ++ r ∷ [] })
        (λ t k. rw (find_append (has_key t k) s.runs (r ∷ [])) (found_Follows _ _))
        (λ t k. one_more r s.runs t k f)

  pub History-insert_run :
      (r : StoredRun) (s t : RunStore R)
      → History before s
      → insert_run r s ≡ some t
      → History before t
  unfolding insert_run read_run holds_run
  History-insert_run r s t h e =
      elim (Bool-cases (any (has_key r.task_name r.envelope_key) s.runs)) [
        | inl f ↦ subst (History before) (some-injective _ _ (ground (arith, e, f))) h
        | inr f ↦ elim (Bool-cases (any (has_id r.task_name r.run_id) s.runs)) [
          | inl g ↦ absurd (ground (arith, e, f, g))
          | inr g ↦
              subst (History before) (some-injective _ _ (ground (arith, e, f, g)))
                (History-append r s f h)
        ]
      ]

  -- the rest of the store does not matter
  pub History-rest :
      (x : R) (s : RunStore R) → History before s → History before (record s { rest = x })
  unfolding read_run
  History-rest x s h = record { follows = h.follows; unique = h.unique }
