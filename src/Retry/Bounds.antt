-- ===== src/Retry/Bounds.antt =====
-- The retries of `src/research-read-retry.ts` and `src/state-ledger-read-retry.ts`: how often they
-- run the operation, and which of its results they give.
use quantpro_collector.Prelude.{
  ap, ◌∙◌, ℕ, zero, suc, ◌+◌, ◌-◌, ◌≤◌, ◌≡◌, refl, Bool, true, false, not, ◌&&◌, ◌||◌, ◌==◌, List,
  [], ◌∷◌, length, take, arith, str_eq, inl, inr, ◌⊎◌,
}
use quantpro_collector.Retry.Read.{
  transient, deterministic, unknown, is_unknown, RetryRun, ReadError, boundary, backend, Attempt,
  returned, threw, retry_from, should_retry_research_read, failure_class, final_error,
  with_research_read_retry,
}
use quantpro_collector.Retry.Ledger.{Fetched, is_final, fetch_state_ledger_read_with_retry}

next_run : (n k : ℕ) → 1 ≤ k → suc n + (k - 1) ≡ n + (suc k - 1)
next_run n k h = omega arith

at_start : (n : ℕ) → n + 0 ≡ n
at_start n = omega arith

one_on : (n k : ℕ) → suc n + k ≡ n + suc k
one_on n k = omega arith

Attempt-cases :
    {A : Type 0} (x : Attempt A) → ((a : A) × (x ≡ returned a)) ⊎ ((e : ReadError) × (x ≡ threw e))
Attempt-cases (returned a) = inl (a, refl)
Attempt-cases (threw e) = inr (e, refl)

from_start : (n : ℕ) → 0 + n ≡ n
from_start n = omega arith

first_run : (n : ℕ) → n + (1 - 1) ≡ n
first_run n = omega arith

-- Which failures are tried again: those that the store calls retryable and the transient ones, and
-- one of an unknown class at the first run only.
abbrev pub is_retried : ReadError → ℕ → Bool
is_retried (boundary code retryable) n = str_eq code "STORE_UNAVAILABLE" && retryable
is_retried (backend transient) n = true
is_retried (backend unknown) n = n == 0
is_retried (backend deterministic) n = false

-- how a read ends: with a value, or with an error whose code and retry flag are these
abbrev pub ended : {A : Type 0} → Attempt A → Attempt A
ended (returned a) = returned a
ended (threw (boundary code retryable)) = threw (boundary code retryable)
ended (threw (backend transient)) = threw (boundary "STORE_UNAVAILABLE" true)
ended (threw (backend unknown)) = threw (boundary "STORE_UNAVAILABLE" true)
ended (threw (backend deterministic)) = threw (boundary "STORE_UNAVAILABLE" false)

abbrev pub goes_on : {A : Type 0} → Attempt A → ℕ → Bool
goes_on (returned a) n = false
goes_on (threw e) n = is_retried e n

module _ {A : Type 0} (operation : ℕ → Attempt A) where
  -- so many runs from the n-th on fail and are tried again
  abbrev pub all_go_on : ℕ → (runs : ℕ) → Bool
  all_go_on n zero = true
  all_go_on n (suc k) = goes_on (operation n) n && all_go_on (suc n) k

  -- what a read does that runs its operation so often before its last run, from the n-th on
  abbrev pub IsRetry : List ℕ → ℕ → (before : ℕ) → RetryRun A → Type 0
  IsRetry delays n k r =
      ((r.operations ≡ k + 1) × (k ≤ length delays) × (r.sleeps ≡ take k delays))
      × (all_go_on n k ≡ true)
      × ((k == length delays || not (goes_on (operation (n + k)) (n + k))) ≡ true)
      × (r.result ≡ ended (operation (n + k)))

  ended_lem : (e : ReadError) → ended {A = A} (threw e) ≡ threw (final_error e)
  unfolding final_error
  ended_lem (boundary c r) = refl
  ended_lem (backend transient) = refl
  ended_lem (backend unknown) = refl
  ended_lem (backend deterministic) = refl

  is_retried_lem :
      (e : ReadError) (n : ℕ)
      → (should_retry_research_read e && (not (is_unknown (failure_class e)) || n == 0))
        ≡ is_retried e n
  unfolding should_retry_research_read failure_class
  is_retried_lem (boundary c r) n = ground arith
  is_retried_lem (backend transient) n = refl
  is_retried_lem (backend unknown) n = refl
  is_retried_lem (backend deterministic) n = refl

  retry_from-IsRetry :
      (most : ℕ) (delays : List ℕ) (n : ℕ)
      → let r = retry_from operation most delays n in IsRetry delays n (length r.sleeps) r
  unfolding retry_from
  retry_from-IsRetry most [] n = elim (Attempt-cases (operation n)) [
    | inl (a, h) ↦ ground (arith, h, at_start n)
    | inr (e, h) ↦ ground (arith, h, at_start n, ended_lem e)
  ]
  retry_from-IsRetry most (d ∷ ds) n =
      let k = length (retry_from operation most ds (suc n)).sleeps in
      elim (Attempt-cases (operation n)) [
        | inl (a, h) ↦ ground (arith, h, at_start n)
        | inr (e, h) ↦ ground (
          arith,
          h,
          at_start n,
          one_on n k,
          ended_lem e,
          is_retried_lem e n,
          retry_from-IsRetry most ds (suc n),
        )
      ]

-- A retried read tries a failure again, after its delay, while delays are left and the failure is a
-- retryable STORE_UNAVAILABLE, a transient backend error, or an unknown one of the first run. The
-- first run for which that does not hold is the last; the read answers its value or its boundary
-- error, and for a backend error STORE_UNAVAILABLE, retryable unless the error is deterministic.
pub with_research_read_retry-IsRetry :
    {A : Type 0} (operation : ℕ → Attempt A) (delays : List ℕ)
    → let r = with_research_read_retry operation delays in
      IsRetry operation delays 0 (length r.sleeps) r
unfolding with_research_read_retry
with_research_read_retry-IsRetry operation delays =
    retry_from-IsRetry operation (length delays + 1) delays 0

ledger-bounds :
    (operation : ℕ → Fetched) (delays : List ℕ) (n : ℕ)
    → let r = fetch_state_ledger_read_with_retry operation delays n in
      ((1 ≤ r.operations) × (r.operations ≤ length delays + 1))
      × (r.result ≡ operation (n + (r.operations - 1)))
      × (is_final r.result ≡ false → r.operations ≡ length delays + 1)
unfolding fetch_state_ledger_read_with_retry
ledger-bounds operation [] n = ground (arith, first_run n)
ledger-bounds operation (d ∷ ds) n = ground (
  arith,
  first_run n,
  ledger-bounds operation ds (suc n),
  next_run n (fetch_state_ledger_read_with_retry operation ds (suc n)).operations,
)

-- A ledger read runs its operation at least once and at most once more than there are delays, and
-- answers what the last run gave. A response that is neither a success nor a final refusal is only
-- answered after all retries are used up.
pub fetch_state_ledger_read_with_retry-last :
    (operation : ℕ → Fetched) (delays : List ℕ)
    → let r = fetch_state_ledger_read_with_retry operation delays 0 in
      ((1 ≤ r.operations) × (r.operations ≤ length delays + 1))
      × (r.result ≡ operation (r.operations - 1))
      × (is_final r.result ≡ false → r.operations ≡ length delays + 1)
fetch_state_ledger_read_with_retry-last operation delays =
    let r = ledger-bounds operation delays 0 in
    let last = (fetch_state_ledger_read_with_retry operation delays 0).operations - 1 in
    (r.0, r.1 ∙ ap operation (from_start last), r.2)
