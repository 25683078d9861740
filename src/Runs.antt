-- ===== src/Runs.antt =====
-- The audit of automation runs: `src/run-envelope.ts`, with the parts of
-- `src/automation-run-ledger.ts` that it uses.
pub mod Rows
pub mod Envelope
pub mod History
pub mod Calls
pub mod Once
pub mod Tests
