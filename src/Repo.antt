-- ===== src/Repo.antt =====
-- The clients of package repositories: internal/repo/client/metaclient.go, which joins the
-- repositories, and internal/dependency/default_repo_adapter.go, which serves the dependency manager.
pub mod Types
pub mod Meta
pub mod Adapter
pub mod Spec
pub mod MetaIndex
pub mod MetaTarget
pub mod Panics
pub mod Samples
