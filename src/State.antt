-- ===== src/State.antt =====
-- The gateway to the state ledgers: src/state-gateway.ts and src/state-receipts.ts.
pub mod Errors
pub mod Receipts
pub mod Close
pub mod Batch
pub mod Gateway
pub mod History
pub mod Calls
pub mod Alone
pub mod Outcome
pub mod Lost
pub mod Chain
pub mod Tests
