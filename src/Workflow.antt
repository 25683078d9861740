-- ===== src/Workflow.antt =====
-- The research work queue (src/research-workflow.ts).
pub mod Rows
pub mod Input
pub mod Proposal
pub mod Tables
pub mod Claim
pub mod Canonical
pub mod Submit
pub mod Defer
pub mod Receipts
pub mod Cursor
pub mod Lifecycle
pub mod Safety
pub mod Behaviour
pub mod Tests
