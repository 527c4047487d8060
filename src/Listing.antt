-- ===== src/Listing.antt =====
-- The list of the packages with their status, of pkg/list and pkg/client/package_status.go.
pub mod Status
pub mod Lister
pub mod Fetch
pub mod Cache
pub mod Manifests
pub mod Found
pub mod Outdated
pub mod Samples
