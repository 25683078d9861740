-- ===== src/Quota.antt =====
-- The quota modules: `src/quota-dimensions.ts`, `src/quota-admission.ts`, `src/quota-metering.ts`,
-- `src/quota-billing.ts`, `src/quota-resource-adapters.ts` and `src/quota-entrypoints.ts`.
pub mod Dimensions
pub mod Admission
pub mod Metering
pub mod Billing
pub mod Entrypoints
pub mod Catalog
pub mod Closing
pub mod Usage
pub mod Verified
pub mod Coverage
pub mod Tests
