-- ===== src/Retry/Read.antt =====
-- `src/research-read-retry.ts`: the retry of a research read. The class of a backend error, which
-- the code reads off its message, is part of the error here.
use quantpro_collector.Prelude.{
  ℕ, suc, ◌+◌, Bool, true, false, not, ◌&&◌, ◌||◌, List, [], ◌∷◌, String, str_eq, ◌==◌,
  if◌then◌else◌, length,
}

pub data FailureClass : Type 0 where
  transient deterministic unknown : FailureClass

-- a boundary error with its code and its retry flag, or a classified backend error
pub data ReadError : Type 0 where
  boundary : (error_code : String) → (retryable : Bool) → ReadError
  backend : FailureClass → ReadError

pub data Attempt (A : Type 0) : Type 0 where
  returned : A → Attempt A
  threw : ReadError → Attempt A

abbrev pub store_unavailable_code : String
store_unavailable_code = "STORE_UNAVAILABLE"

-- `failureMetadata`, less the diagnostic texts
unfoldable pub failure_class : ReadError → FailureClass
failure_class (boundary code retryable) =
    if str_eq code store_unavailable_code && retryable then transient else deterministic
failure_class (backend c) = c

abbrev pub is_deterministic : FailureClass → Bool
is_deterministic deterministic = true
is_deterministic _ = false

abbrev pub is_unknown : FailureClass → Bool
is_unknown unknown = true
is_unknown _ = false

-- `shouldRetryResearchRead`
unfoldable pub should_retry_research_read : ReadError → Bool
should_retry_research_read (boundary code retryable) =
    str_eq code store_unavailable_code && retryable
should_retry_research_read (backend c) = not (is_deterministic c)

-- The error that is thrown in the end: a backend error is translated.
unfoldable pub final_error : ReadError → ReadError
final_error (boundary code retryable) = boundary code retryable
final_error (backend c) = boundary store_unavailable_code (not (is_deterministic c))

pub record FailureEvent : Type 0 where
  pub attempt : ℕ
  pub max_attempts : ℕ
  pub will_retry : Bool
  pub failure_class : FailureClass

-- What a call does: its result, the number of operations, the events and the sleeps.
pub record RetryRun (A : Type 0) : Type 0 where
  pub result : Attempt A
  pub operations : ℕ
  pub events : List FailureEvent
  pub sleeps : List ℕ

module _ {A : Type 0} (operation : ℕ → Attempt A) (max_attempts : ℕ) where
  abbrev pub event : ℕ → ReadError → Bool → FailureEvent
  event n e will = record {
    attempt = n + 1;
    max_attempts = max_attempts;
    will_retry = will;
    failure_class = failure_class e;
  }

  abbrev stop : ℕ → ReadError → RetryRun A
  stop n e = record {
    result = threw (final_error e);
    operations = 1;
    events = event n e false ∷ [];
    sleeps = [];
  }

  abbrev again : ℕ → ReadError → ℕ → RetryRun A → RetryRun A
  again n e delay rest = record {
    result = rest.result;
    operations = suc rest.operations;
    events = event n e true ∷ rest.events;
    sleeps = delay ∷ rest.sleeps;
  }

  -- the loop from its n-th attempt on, with the delays that are left
  unfoldable pub retry_from : List ℕ → ℕ → RetryRun A
  unfolding failure_class should_retry_research_read final_error
  retry_from [] n = elim (operation n) [
    | returned a ↦ record { result = returned a; operations = 1; events = []; sleeps = [] }
    | threw e ↦ stop n e
  ]
  retry_from (delay ∷ delays) n =
      let rest = retry_from delays (suc n) in
      elim (operation n) [
        | returned a ↦ record { result = returned a; operations = 1; events = []; sleeps = [] }
        | threw e ↦
            if should_retry_research_read e && (not (is_unknown (failure_class e)) || n == 0)
            then again n e delay rest
            else stop n e
      ]

-- `RESEARCH_READ_RETRY_DELAYS_MS`
abbrev pub research_read_retry_delays_ms : List ℕ
research_read_retry_delays_ms = 500 ∷ 1500 ∷ []

-- `withResearchReadRetry`
unfoldable pub with_research_read_retry : {A : Type 0} → (ℕ → Attempt A) → List ℕ → RetryRun A
with_research_read_retry operation delays = retry_from operation (length delays + 1) delays 0
