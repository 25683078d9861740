-- ===== src/Retry.antt =====
-- The bounded retries of side-effect free reads: `src/research-read-retry.ts` and
-- `src/state-ledger-read-retry.ts`.
pub mod Read
pub mod Ledger
pub mod Bounds
pub mod Tests
