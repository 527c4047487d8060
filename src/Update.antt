-- ===== src/Update.antt =====
-- pkg/update: which packages an update changes and to which version, and the updates it makes.
pub mod Transaction
pub mod Upgrades
pub mod Apply
pub mod Await
pub mod Applied
pub mod Samples
pub mod Getters
pub mod ApplySamples
