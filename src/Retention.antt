-- ===== src/Retention.antt =====
-- The retention of public research documents: `src/research-retention.ts`.
pub mod Rows
pub mod Purge
pub mod Mark
pub mod Scan
pub mod Sweep
pub mod Shared
pub mod Guard
pub mod History
pub mod Calls
pub mod Swept
pub mod Again
pub mod Tests
