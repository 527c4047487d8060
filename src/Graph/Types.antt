-- ===== src/Graph/Types.antt =====
-- The types of internal/dependency/graph/graph.go and errors.go. A Go map is an association list,
-- and a `range` over it visits the keys in their order in the list. A *vertex is the key of
-- `vertices` under which `createVertex` stored it: no vertex is ever removed or stored twice. A
-- method that mutates the graph returns the new one.
use glasskube.Base.{String, ◌≡◌, ◌↔◌, Bool, true, ◌&&◌, Option, List, arith, str_eq, eq_iff}
use glasskube.Assoc.{Key}

pub record PackageRef : Type 0 where
  pub name : String
  pub namespace : String
  pub package_name : String

pub record VertexRef : Type 0 where
  pub name : String
  pub namespace : String

abbrev pub same_ref : VertexRef → VertexRef → Bool
same_ref a b = str_eq a.name b.name && str_eq a.namespace b.namespace

pub same_ref_iff : (a b : VertexRef) → (same_ref a b ≡ true) ↔ (a ≡ b)
same_ref_iff a b = (
  λ e. ground (arith, eq_iff a.name b.name, eq_iff a.namespace b.namespace),
  λ e. ground (arith, eq_iff a.name b.name, eq_iff a.namespace b.namespace),
)

instance abbrev pub ref_key : Key VertexRef
ref_key = record { same = same_ref; same_iff = same_ref_iff }

pub record Edge (C : Type 0) : Type 0 where
  pub constraint : Option C
  pub vertex : VertexRef

pub record Vertex (V C : Type 0) : Type 0 where
  pub package_name : String
  pub version : Option V
  pub manual : Bool
  pub edges : List (VertexRef × Edge C)

-- DependencyGraph, whose one field is its vertexMap.
pub record Graph (V C : Type 0) : Type 0 where
  pub vertices : List (VertexRef × Vertex V C)

-- NotInstalledError and ConstraintError, the causes of a DependencyError.
pub data Cause (V C : Type 0) : Type 0 where
  not_installed : PackageRef → Cause V C
  constraint_error :
      (pkg : PackageRef) (version : V) (constraint : C) (cause : List String) → Cause V C

pub record DependencyError (V C : Type 0) : Type 0 where
  pub pkg : PackageRef
  pub dep : PackageRef
  pub cause : Cause V C
