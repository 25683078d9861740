-- ===== src/Workflow/Behaviour.antt =====
-- What each call of the work queue (src/research-workflow.ts) does when nothing interferes, and
-- what its transactions do on their own.
pub mod Claim
pub mod ClaimAlone
pub mod Submit
pub mod Accepted
pub mod Claimed
pub mod Defer
