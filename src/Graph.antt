-- ===== src/Graph.antt =====
-- internal/dependency/graph/graph.go, errors.go and internal/dependency/util/component.go: the
-- graph of packages and what depends on what.
pub mod Types
pub mod VertexMap
pub mod Queries
pub mod Changes
pub mod Validate
pub mod Lookup
pub mod WellFormed
pub mod Consistency
pub mod Prune
pub mod Add
pub mod Max
pub mod Samples
pub mod Witnesses
