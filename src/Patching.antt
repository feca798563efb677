-- ===== src/Patching.antt =====
-- pkg/util/patch: the helper that sends what a reconciliation changed to the API server.
pub mod Options
pub mod Fields
pub mod StatusConditions
pub mod Helper
pub mod Steady
pub mod Kept
pub mod Unchanged
