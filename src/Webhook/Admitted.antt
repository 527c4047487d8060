-- ===== src/Webhook/Admitted.antt =====
-- What is known of a package that the webhook admits.
use glasskube.Base.{
  ℕ, ◌≡◌, refl, true, false, some, List, [], ◌∷◌, arith, Result, ok, err, is_empty_iff,
  Result-cases, inl, inr,
}
use glasskube.Semver.{Semver}
use glasskube.Manifest.{PackageManifest, is_cluster, is_namespaced}
use glasskube.Graph.Types.{Graph}
use glasskube.Graph.Queries.{ref_of}
use glasskube.Values.Validate.{Regexp, ValidationError}
use glasskube.Values.Accept.{Fits, validate-Fits}
use glasskube.Values.Resolver.{Values, targets_for_package, validate_package as validate_values}
use glasskube.Manager.Types.{
  Faults, Run, RepoAdapter, InstalledPackage, PackageClient, Requirement, ValidationResult,
}
use glasskube.Manager.Installed.{new_graph}
use glasskube.Manager.Verdict.{plan, validate_package as validate_dependencies}
use glasskube.Manager.Sound.{IsSafe, validate_package-IsSafe, fine_of_no_conflicts}
use glasskube.Webhook.Validator.{
  Candidate, package_object, Admission, check_scope, check_values, check_result,
  validate_create_or_update, validate_create,
}

-- The scope of the manifest is that of the package.
pub record IsScoped (manifest : PackageManifest) (pkg : InstalledPackage) : Type 0 where
  pub cluster : is_cluster manifest.scope ≡ true → pkg.is_namespace_scoped ≡ false
  pub namespaced : is_namespaced manifest.scope ≡ true → pkg.is_namespace_scoped ≡ true

module _ {V C : Type 0} where
  IsScoped-of_check :
      (manifest : PackageManifest) (pkg : InstalledPackage) {u : Unit {0}}
      → check_scope {V = V} {C = C} manifest pkg ≡ ok u
      → IsScoped manifest pkg
  unfolding check_scope
  IsScoped-of_check manifest pkg e = record {
    cluster = λ c. ground (arith, c, e);
    namespaced = λ n. ground (arith, n, e);
  }

  no_value_errors :
      (errs : List ValidationError) {u : Unit {0}}
      → check_values {V = V} {C = C} errs ≡ ok u
      → errs ≡ []
  unfolding check_values
  no_value_errors [] e = refl
  no_value_errors (x ∷ xs) e = cc

  no_conflict :
      (run : Run V C (ValidationResult V C)) {u : Unit {0}}
      → check_result run ≡ ok u
      → (r : ValidationResult V C) × (run ≡ ok r) × (r.conflicts ≡ [])
  unfolding check_result
  no_conflict (err stop) e = cc
  no_conflict (ok r) e = (r, refl, ground (arith, e, is_empty_iff r.conflicts))

module _ {V C R : Type 0} (lib : Semver V C) (re : Regexp R) (client : PackageClient)
    (repo : RepoAdapter) (sort : List Requirement → List Requirement)
    (fetch : InstalledPackage → Result Faults PackageManifest) (fuel : ℕ) where
  -- A package is sound if its manifest can be fetched, has its scope and is fit by its values, and
  -- if installing it is safe for the packages of the cluster.
  pub record IsSound (c : Candidate) : Type 0 where
    pub manifest : PackageManifest
    pub was_fetched : fetch c.package_of ≡ ok manifest
    pub scoped : IsScoped manifest c.package_of
    pub fits : Fits re manifest (targets_for_package c.values)
    pub before : Graph V C
    pub after : Graph V C
    pub requirements : List Requirement
    pub from_cluster : new_graph lib client repo ≡ ok before
    pub as_planned :
        plan lib client repo sort fuel before c.package_of.name c.package_of.namespace manifest
          c.package_of.version
        ≡ ok (after, requirements)
    pub safe : IsSafe lib before after (ref_of c.package_of.name c.package_of.namespace)

  abbrev IfAdmitted : Admission V C → Type 0 → Type 0
  IfAdmitted (ok u) P = P
  IfAdmitted (err r) P = Unit

  Fits-of_values :
      (manifest : PackageManifest) (values : Values)
      → validate_values re manifest values ≡ []
      → Fits re manifest (targets_for_package values)
  unfolding validate_values
  Fits-of_values manifest values e = (validate-Fits re manifest (targets_for_package values)).0 e

  IsSound-of_result :
      (c : Candidate) (manifest : PackageManifest)
      → fetch c.package_of ≡ ok manifest
      → IsScoped manifest c.package_of
      → Fits re manifest (targets_for_package c.values)
      → IfAdmitted
          (check_result (
            validate_dependencies lib client repo sort fuel c.package_of.name c.package_of.namespace
              (some manifest)
              c.package_of.version))
          (IsSound c)
  IsSound-of_result c manifest was_fetched scoped fits =
      let pkg : InstalledPackage = c.package_of in
      let run =
        validate_dependencies lib client repo sort fuel pkg.name pkg.namespace (some manifest)
          pkg.version in
      elim (Result-cases (check_result run)) [
        | inr (e, refused) ↦ rw refused tt
        | inl (u, accepted) ↦ rw accepted (
            let (r, returned, none_there) = no_conflict run accepted in
            let (before, after, requirements, from_cluster, as_planned, sorted, safe) =
              validate_package-IsSafe lib client repo sort fuel pkg.name pkg.namespace manifest
                pkg.version r returned
                (fine_of_no_conflicts lib client repo sort fuel pkg.name pkg.namespace manifest
                  pkg.version r returned none_there) in
            record {
              manifest = manifest;
              was_fetched = was_fetched;
              scoped = scoped;
              fits = fits;
              before = before;
              after = after;
              requirements = requirements;
              from_cluster = from_cluster;
              as_planned = as_planned;
              safe = safe;
            })
      ]

  IsSound-of_check :
      (c : Candidate)
      → IfAdmitted (validate_create_or_update lib re client repo sort fetch fuel c) (IsSound c)
  unfolding validate_create_or_update
  IsSound-of_check c = elim (Result-cases (fetch c.package_of)) [
    | inr (e, failed) ↦ rw failed tt
    | inl (manifest, was_fetched) ↦
        rw was_fetched (elim (Result-cases (check_scope {V = V} {C = C} manifest c.package_of)) [
          | inr (e, refused) ↦ rw refused tt
          | inl (u, scoped) ↦
              rw scoped
                (elim (Result-cases
                  (check_values {V = V} {C = C} (validate_values re manifest c.values))) [
                    | inr (e, refused) ↦ rw refused tt
                    | inl (u', valid) ↦ rw valid (
                        IsSound-of_result c manifest was_fetched
                          (IsScoped-of_check {V = V} {C = C} manifest c.package_of scoped)
                          (Fits-of_values manifest c.values
                            (no_value_errors {V = V} {C = C} _ valid)))
                  ])
        ])
  ]

  sound_if :
      (admission : Admission V C) {P : Type 0} {u : Unit {0}}
      → IfAdmitted admission P
      → admission ≡ ok u
      → P
  sound_if (ok u) p e = p
  sound_if (err r) p e = cc

  -- A package whose creation the webhook admits is sound.
  pub validate_create-IsSound :
      (c : Candidate)
      → validate_create lib re client repo sort fetch fuel (package_object c) ≡ ok tt
      → IsSound c
  unfolding validate_create
  validate_create-IsSound c admitted = sound_if _ (IsSound-of_check c) admitted
