-- ===== src/Manager/FuelSamples.antt =====
-- The installation of `shop` into an empty cluster does not run out of fuel.
use glasskube.Base.{
  ℕ, String, ◌≡◌, ◌≢◌, refl, ap, ◌∙◌, some, List, [], ◌∷◌, Result, ok, err, arith, str_eq,
  Bool-cases, inl, inr, All, All-IsIn, IsIn, here, there,
}
use mathlib.Core.Path.{subst}
use glasskube.Assoc.{get}
use glasskube.Semver.Samples.{Release, release, releases}
use glasskube.Manifest.{PackageManifest}
use glasskube.Graph.Types.{PackageRef, Graph}
use glasskube.Graph.VertexMap.{vertex_at, empty_graph}
use glasskube.Graph.Queries.{ref_of, package_ref}
use glasskube.Graph.Changes.{component_name}
use glasskube.Graph.Add.{Target, targets}
use glasskube.Graph.Samples.{shop, db, disk, cache, named}
use glasskube.Manager.Types.{returned, Faults, out_of_fuel}
use glasskube.Manager.Installed.{new_graph}
use glasskube.Manager.Verdict.{validate_package}
use glasskube.Manager.Covered.{IsCovered}
use glasskube.Manager.Fuel.{vertex_of, IsClosed}
use glasskube.Manager.Enough.{validate_package_ends}
use glasskube.Manager.Samples.{manifest_of, repo, client, unsorted}

abbrev packages : List PackageRef
packages =
    named "shop" "" "shop"
    ∷ named "db" "" "db"
    ∷ named "disk" "" "disk"
    ∷ named "shop-cache" "apps" "cache"
    ∷ []

release_text :
    (r v : Release) → ◌≡◌ {A = Result String Release} (ok r) (ok v) → r.text ≢ "" → v.text ≢ ""
release_text r v e full empty =
    let same : r ≡ v = cc e in full (ap (λ (x : Release). x.text) same ∙ empty)

originals : (s : String) (v : Release) → releases.new_version s ≡ ok v → releases.original v ≢ ""
originals s v e = elim (Bool-cases (str_eq s "1")) [
  | inl a ↦ release_text (release 1 "" "1") v (rw a at e) (λ x. cc x)
  | inr a ↦ elim (Bool-cases (str_eq s "1+3")) [
    | inl b ↦ release_text (release 1 "3" "1+3") v (rw (a, b) at e) (λ x. cc x)
    | inr b ↦ elim (Bool-cases (str_eq s "1+7")) [
      | inl c ↦ release_text (release 1 "7" "1+7") v (rw (a, b, c) at e) (λ x. cc x)
      | inr c ↦ elim (Bool-cases (str_eq s "2")) [
        | inl d ↦ release_text (release 2 "" "2") v (rw (a, b, c, d) at e) (λ x. cc x)
        | inr d ↦ cc (rw (a, b, c, d) at e)
      ]
    ]
  ]
]

-- What the repository answers for a package fits the list.
abbrev Answers : PackageRef → Type 0
Answers p =
    (p.namespace ≡ "" → p.name ≡ p.package_name)
    × ((m : PackageManifest) (errs : Faults)
        → manifest_of p.package_name ≡ returned (some m) errs
        → (m.name ≡ p.package_name)
          × ((t : Target)
              → IsIn t (targets (vertex_of p) m)
              → IsIn (package_ref t.to t.name) packages))

-- A manifest without dependencies, or one of which all targets are in the list.
Answers-of :
    (p : PackageRef) (m : PackageManifest)
    → (p.namespace ≡ "" → p.name ≡ p.package_name)
    → manifest_of p.package_name ≡ returned (some m) []
    → m.name ≡ p.package_name
    → ((t : Target) → IsIn t (targets (vertex_of p) m) → IsIn (package_ref t.to t.name) packages)
    → Answers p
Answers-of p m cluster reply is_named declares = (
  cluster,
  λ n errs reply'.
      let same : m ≡ n = cc (reply, reply') in
      subst
        (λ (x : PackageManifest).
          (x.name ≡ p.package_name)
          × ((t : Target)
              → IsIn t (targets (vertex_of p) x)
              → IsIn (package_ref t.to t.name) packages))
        same (is_named, declares),
)

disk_listed :
    (t : Target) → IsIn t (targets (ref_of "db" "") db) → IsIn (package_ref t.to t.name) packages
disk_listed t m = elim m [
  | here e ↦
      subst (λ (u : Target). IsIn (package_ref u.to u.name) packages) e (there (there (here refl)))
  | there later ↦ elim later [ ]
]

shop-Answers : Answers (named "shop" "" "shop")
shop-Answers = (λ _. refl, λ n errs reply. cc reply)

db-Answers : Answers (named "db" "" "db")
db-Answers = Answers-of (named "db" "" "db") db (λ _. refl) refl refl disk_listed

disk-Answers : Answers (named "disk" "" "disk")
disk-Answers = Answers-of (named "disk" "" "disk") disk (λ _. refl) refl refl (λ t n. elim n [ ])

cache-Answers : Answers (named "shop-cache" "apps" "cache")
cache-Answers =
    Answers-of (named "shop-cache" "apps" "cache") cache (λ x. cc x) refl refl (λ t n. elim n [ ])

All-Answers : All Answers packages
All-Answers = (shop-Answers, (db-Answers, (disk-Answers, (cache-Answers, tt))))

answers : (p : PackageRef) → IsIn p packages → Answers p
answers p m = All-IsIn Answers All-Answers m

closed : IsClosed repo packages
closed = record {
  cluster = λ p m. (answers p m).0;
  named = λ p v n errs m reply. ((answers p m).1 n errs reply).0;
  declares = λ p v n errs t m reply. ((answers p m).1 n errs reply).1 t;
}

shop_listed :
    (t : Target)
    → IsIn t (targets (ref_of "shop" "") shop)
    → IsIn (package_ref t.to t.name) packages
unfolding component_name
shop_listed t m = elim m [
  | here e ↦ subst (λ (u : Target). IsIn (package_ref u.to u.name) packages) e (there (here refl))
  | there m1 ↦ elim m1 [
    | here e ↦
        subst (λ (u : Target). IsIn (package_ref u.to u.name) packages) e
          (there (there (there (here refl))))
    | there m2 ↦ elim m2 [ ]
  ]
]

covered : (g : Graph Release ℕ) → new_graph releases client repo ≡ ok g → IsCovered packages g
unfolding new_graph vertex_at get
covered g e =
    let is_g : empty_graph ≡ g = cc e in subst (IsCovered packages) is_g (λ k v found. cc found)

validate_package_ends_example :
    validate_package releases client repo unsorted 5 "shop" "" (some shop) "2" ≢ err out_of_fuel
validate_package_ends_example =
    validate_package_ends releases client repo unsorted packages originals closed "shop" "" shop "2"
      (here refl, shop_listed) 5 (omega arith) covered
