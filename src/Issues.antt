-- ===== src/Issues.antt =====
-- The bookkeeping of GitHub issues: `src/issue-bookkeeping.ts`.
pub mod Command
pub mod Rows
pub mod Submit
pub mod Delivery
pub mod Twice
pub mod Tests
