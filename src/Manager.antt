-- ===== src/Manager.antt =====
-- internal/dependency/manager.go with types.go, and internal/repo/error.
pub mod Types
pub mod Installed
pub mod Resolve
pub mod Verdict
pub mod Plan
pub mod Covered
pub mod Fuel
pub mod Chosen
pub mod Ending
pub mod Enough
pub mod News
pub mod Sound
pub mod Samples
mod FuelSamples
