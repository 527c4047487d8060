-- ===== src/Plain.antt =====
-- The adapter for plain manifests, of internal/manifest/plain.
pub mod Objects
pub mod Adapter
pub mod Namespaces
pub mod Placed
pub mod Ready
mod Samples
