-- ===== src/Patch.antt =====
-- internal/resourcepatch/patch.go and internal/manifesttransformations: the JSON patches by which
-- values change the resources of a package.
pub mod Target
pub mod Generate
pub mod Apply
pub mod Complete
pub mod Samples
