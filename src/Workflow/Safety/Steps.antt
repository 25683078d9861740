-- ===== src/Workflow/Safety/Steps.antt =====
-- Every write of the handlers of research-workflow.ts is a step of the lifecycle, or several.
pub mod Claim
pub mod Submit
pub mod Defer
