-- ===== src/Retry/Ledger.antt =====
-- `src/state-ledger-read-retry.ts`: the retry of a ledger read. The jittered delays are not kept.
use quantpro_collector.Prelude.{
  ℕ, suc, Bool, false, not, ◌&&◌, ◌||◌, List, [], ◌∷◌, ◌==◌, leb, if◌then◌else◌,
}

-- an operation gives a response with its status, or throws
pub data Fetched : Type 0 where
  response : (status : ℕ) → Fetched
  threw : Fetched

-- `isRetryableStateLedgerReadStatus`
unfoldable pub is_retryable_state_ledger_read_status : ℕ → Bool
is_retryable_state_ledger_read_status status =
    status == 408 || status == 425 || status == 429 || (leb 500 status && leb status 599)

-- `response.ok`
abbrev pub is_ok : ℕ → Bool
is_ok status = leb 200 status && leb status 299

abbrev pub is_final : Fetched → Bool
is_final threw = false
is_final (response status) = is_ok status || not (is_retryable_state_ledger_read_status status)

pub record LedgerRun : Type 0 where
  pub result : Fetched
  pub operations : ℕ

-- `fetchStateLedgerReadWithRetry` from its n-th attempt on, with the delays that are left
unfoldable pub fetch_state_ledger_read_with_retry : (ℕ → Fetched) → List ℕ → ℕ → LedgerRun
unfolding is_retryable_state_ledger_read_status
fetch_state_ledger_read_with_retry operation [] n = record { result = operation n; operations = 1 }
fetch_state_ledger_read_with_retry operation (delay ∷ delays) n =
    let rest = fetch_state_ledger_read_with_retry operation delays (suc n) in
    if is_final (operation n)
    then record { result = operation n; operations = 1 }
    else record { result = rest.result; operations = suc rest.operations }
