-- ===== src/Retry/Tests.antt =====
-- Runs of the retries (`src/research-read-retry.ts` and `src/state-ledger-read-retry.ts`).
use quantpro_collector.Prelude.{ℕ, ◌==◌, if◌then◌else◌}
use quantpro_collector.Retry.Read.{
  transient, deterministic, unknown, backend, Attempt, returned, threw,
  research_read_retry_delays_ms, with_research_read_retry, retry_from,
}
use quantpro_collector.Retry.Ledger.{Fetched, response}
use quantpro_collector.Retry.Bounds.{IsRetry, with_research_read_retry-IsRetry}

-- the first two runs fail with a transient error
abbrev flaky : ℕ → Attempt ℕ
flaky n = if n == 2 then returned 7 else threw (backend transient)

abbrev unknown_failure : ℕ → Attempt ℕ
unknown_failure n = threw (backend unknown)

abbrev bad_query : ℕ → Attempt ℕ
bad_query n = threw (backend deterministic)

abbrev busy : ℕ → Fetched
busy n = if n == 1 then response 200 else response 503

with_research_read_retry-IsRetry_example :
    IsRetry flaky research_read_retry_delays_ms 0 2
      (with_research_read_retry flaky research_read_retry_delays_ms)
unfolding with_research_read_retry retry_from
with_research_read_retry-IsRetry_example =
    with_research_read_retry-IsRetry flaky research_read_retry_delays_ms
