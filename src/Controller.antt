-- ===== src/Controller.antt =====
-- The package controller: internal/controller/common.go, with the conditions of
-- internal/controller/conditions.
pub mod Conditions
pub mod Slices
pub mod Types
pub mod Prune
pub mod Finalize
pub mod Adapters
pub mod Required
pub mod Dependencies
pub mod Reconcile
pub mod Loop
pub mod Frame
pub mod Verdicts
pub mod Selected
pub mod Installed
pub mod Ensured
pub mod Success
pub mod Kept
pub mod Written
pub mod Deletion
pub mod Samples
pub mod LoopSamples
pub mod Infos
pub mod Synced
pub mod InfoSamples
