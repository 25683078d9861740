-- ===== src/Portfolio.antt =====
-- The LIVE portfolio universe: `src/portfolio-delta.ts`.
pub mod Codes
pub mod Delta
pub mod Store
pub mod Tests
