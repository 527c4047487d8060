-- ===== src/Owners.antt =====
-- internal/controller/owners/utils/owned_resources.go: the list of the resources that a package owns.
pub mod OwnedResources
pub mod Sets
pub mod Samples
