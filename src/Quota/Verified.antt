-- ===== src/Quota/Verified.antt =====
-- `interpretBillableUsage` of `src/quota-billing.ts`: what an accepted payload had to be.
use quantpro_collector.Prelude.{
  find?, str_eq, all, ◌&&◌, ℕ, ◌≡◌, refl, Bool, true, false, Option, none, some, List, [], String,
  arith, Option-cases, inl, inr, ◌∷◌, not,
}
use quantpro_collector.Json.{Json, null, bool, num, other_num, str, arr, obj, get, fields, items}
use quantpro_collector.Quota.Dimensions.{dimension_spec, ◌⧺◌, is_dimension_key, Dates}
use quantpro_collector.Quota.Billing.{
  usage_type, interpret_body, ◌>>=◌, BaselineObservation, observe_row, observe_rows,
  interpret_billable_usage, interpret_result, billing_dimension_mappings, BillingDimensionMapping,
  result_of, BillingReadInput, BillingReadResult, accept, interpret_usage, interpret_cycle,
  iso_or_null, present, or_else,
}

abbrev pub is_accepted : BillingReadResult → Bool
is_accepted (accept p os) = true
is_accepted _ = false

module _ (dates : Dates) (fraction : String → ℕ → Option ℕ) (i : BillingReadInput) where
  usage-unmapped :
      (p c : String) (v : Option Json)
      → is_accepted (interpret_usage dates fraction i [] p c v) ≡ false
  unfolding interpret_usage
  usage-unmapped p c none = refl
  usage-unmapped p c (some null) = refl
  usage-unmapped p c (some (bool b)) = refl
  usage-unmapped p c (some (num n)) = refl
  usage-unmapped p c (some (other_num n)) = refl
  usage-unmapped p c (some (str s)) = refl
  usage-unmapped p c (some (arr vs)) = refl
  usage-unmapped p c (some (obj fs)) = refl

  cycle-unmapped :
      (m : List (String × Json)) (p : String)
      → is_accepted (interpret_cycle dates fraction i [] m p) ≡ false
  unfolding interpret_cycle
  cycle-unmapped m p = elim (Option-cases (iso_or_null dates (present dates i.coverage_end))) [
    | inl e ↦ ground (arith, e)
    | inr (c, e) ↦
        ground (arith, e, usage-unmapped p c (or_else (get "usage" m) (get "total_usage" m)))
  ]

  result-unmapped :
      (m : List (String × Json)) → is_accepted (interpret_result dates fraction i [] m) ≡ false
  unfolding interpret_result
  result-unmapped m =
      let starts = or_else (get "billing_cycle_start" m) (get "period_start" m) in
      let ends = or_else (get "billing_cycle_end" m) (get "period_end" m) in
      elim (Option-cases (iso_or_null dates starts)) [
        | inl e ↦ ground (arith, e)
        | inr (start, e) ↦ elim (Option-cases (iso_or_null dates ends)) [
          | inl f ↦ ground (arith, e, f)
          | inr (end, f) ↦ ground (arith, e, f, cycle-unmapped m ("cycle:" ⧺ start ⧺ ".." ⧺ end))
        ]
      ]

  body-unmapped : (v : Json) → is_accepted (interpret_body dates fraction i [] v) ≡ false
  unfolding interpret_body
  body-unmapped null = refl
  body-unmapped (bool b) = refl
  body-unmapped (num n) = refl
  body-unmapped (other_num n) = refl
  body-unmapped (str s) = refl
  body-unmapped (arr vs) = refl
  body-unmapped (obj fs) = elim (Option-cases (result_of (get "result" (fields fs)))) [
    | inl e ↦ ground (arith, e)
    | inr (m, e) ↦ ground (arith, e, result-unmapped m)
  ]

  -- With the mappings that the code ships, which are none, no payload whatsoever is accepted.
  pub interpret_billable_usage-unmapped :
      is_accepted (interpret_billable_usage dates fraction i billing_dimension_mappings) ≡ false
  unfolding interpret_billable_usage
  interpret_billable_usage-unmapped = ground (arith, body-unmapped i.body)

abbrev empty {ℓ} : {A : Type ℓ} → List A → Bool
empty [] = true
empty (x ∷ xs) = false

abbrev if_some {ℓ} : {A : Type ℓ} → (A → Bool) → Option A → Bool
if_some p none = true
if_some p (some a) = p a

abbrev known : List BaselineObservation → Bool
known os = all (λ o. is_dimension_key (BaselineObservation.dimension_key o)) os

-- what an accepted result has
abbrev pub sound : BillingReadResult → Bool
sound (accept p os) = not (empty os) && known os
sound _ = true

if_some-bind :
    {A B : Type 0} (p : B → Bool) (o : Option A) (f : A → Option B)
    → ((a : A) → o ≡ some a → if_some p (f a) ≡ true)
    → if_some p (o >>= f) ≡ true
if_some-bind p none f h = refl
if_some-bind p (some a) f h = h a refl

module _ (dates : Dates) (fraction : String → ℕ → Option ℕ) (i : BillingReadInput)
    (mappings : List BillingDimensionMapping) where
  row-known :
      (f p c : String) (v : Json)
      → if_some
          (λ o. is_dimension_key (BaselineObservation.dimension_key o))
          (observe_row dates fraction mappings f p c v)
        ≡ true
  unfolding observe_row is_dimension_key
  row-known f p c null = refl
  row-known f p c (bool b) = refl
  row-known f p c (num n) = refl
  row-known f p c (other_num n) = refl
  row-known f p c (str s) = refl
  row-known f p c (arr vs) = refl
  row-known f p c (obj fs) = if_some-bind _ (usage_type dates (fields fs)) _ λ kind _.
      if_some-bind _
        (find? (λ e. str_eq (BillingDimensionMapping.provider_usage_type e) kind) mappings) _
        λ mapping _.
          if_some-bind _ (dimension_spec mapping.dimension_key) _
            λ specification e. ground (arith, e)

  rows-known :
      (f p c : String) (vs : List Json)
      → if_some known (observe_rows dates fraction mappings f p c vs) ≡ true
  unfolding observe_rows
  rows-known f p c [] = refl
  rows-known f p c (v ∷ vs) = ground (arith, row-known f p c v, rows-known f p c vs)

  usage-sound :
      (p c : String) (v : Option Json)
      → sound (interpret_usage dates fraction i mappings p c v) ≡ true
  unfolding interpret_usage
  usage-sound p c none = refl
  usage-sound p c (some null) = refl
  usage-sound p c (some (bool b)) = refl
  usage-sound p c (some (num n)) = refl
  usage-sound p c (some (other_num n)) = refl
  usage-sound p c (some (str s)) = refl
  usage-sound p c (some (arr vs)) = ground (arith, rows-known i.fetched_at p c (items vs))
  usage-sound p c (some (obj fs)) = refl

  cycle-sound :
      (m : List (String × Json)) (p : String)
      → sound (interpret_cycle dates fraction i mappings m p) ≡ true
  unfolding interpret_cycle
  cycle-sound m p = elim (Option-cases (iso_or_null dates (present dates i.coverage_end))) [
    | inl e ↦ ground (arith, e)
    | inr (c, e) ↦
        ground (arith, e, usage-sound p c (or_else (get "usage" m) (get "total_usage" m)))
  ]

  result-sound :
      (m : List (String × Json)) → sound (interpret_result dates fraction i mappings m) ≡ true
  unfolding interpret_result
  result-sound m =
      let starts = or_else (get "billing_cycle_start" m) (get "period_start" m) in
      let ends = or_else (get "billing_cycle_end" m) (get "period_end" m) in
      elim (Option-cases (iso_or_null dates starts)) [
        | inl e ↦ ground (arith, e)
        | inr (start, e) ↦ elim (Option-cases (iso_or_null dates ends)) [
          | inl f ↦ ground (arith, e, f)
          | inr (end, f) ↦ ground (arith, e, f, cycle-sound m ("cycle:" ⧺ start ⧺ ".." ⧺ end))
        ]
      ]

  body-sound : (v : Json) → sound (interpret_body dates fraction i mappings v) ≡ true
  unfolding interpret_body
  body-sound null = refl
  body-sound (bool b) = refl
  body-sound (num n) = refl
  body-sound (other_num n) = refl
  body-sound (str s) = refl
  body-sound (arr vs) = refl
  body-sound (obj fs) = elim (Option-cases (result_of (get "result" (fields fs)))) [
    | inl e ↦ ground (arith, e)
    | inr (m, e) ↦ ground (arith, e, result-sound m)
  ]

  -- An accepted payload has at least one observation, and all of them are of dimensions of the
  -- catalog: absence is never read as zero usage. It came with HTTP status 200.
  pub interpret_billable_usage-sound :
      let r = interpret_billable_usage dates fraction i mappings in
      (sound r ≡ true) × (is_accepted r ≡ true → i.http_status ≡ 200)
  unfolding interpret_billable_usage
  interpret_billable_usage-sound = (ground (arith, body-sound i.body), λ h. ground arith)
