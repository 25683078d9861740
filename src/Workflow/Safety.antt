-- ===== src/Workflow/Safety.antt =====
-- Safety of the work queue (src/research-workflow.ts) under every interleaving of calls.
pub mod Request
pub mod Consistent
pub mod Steps
pub mod Handlers
pub mod Calls
pub mod History
