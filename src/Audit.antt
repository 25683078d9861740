-- ===== src/Audit.antt =====
-- The audit of automation runs: `src/automation-run-ledger.ts`.
pub mod Runs
pub mod Events
pub mod Follows
pub mod History
pub mod Twice
pub mod Tests
