-- ===== src/Webhook/Samples.antt =====
-- The admission of `shop`, as a cluster package.
use glasskube.Base.{◌≡◌, refl, true, false, [], ◌∷◌, Result, ok, err}
use glasskube.Manifest.{PackageManifest, is_cluster, is_namespaced}
use glasskube.Assoc.{keys, contains, collect}
use glasskube.Values.Resolver.{validate_package as validate_values}
use glasskube.Graph.Samples.{shop, program}
use glasskube.Semver.Samples.{releases}
use glasskube.Values.Samples.{exact, literal}
use glasskube.Values.Validate.{no_def, validate}
use glasskube.Manager.Types.{Faults, InstalledPackage, checked}
use glasskube.Manager.Verdict.{validate_package, new_conflicts}
use glasskube.Manager.Samples.{client, repo, unsorted}
use glasskube.Webhook.Validator.{
  Candidate, package_object, other_object, validate_create, validate_update,
  expected_cluster_package, invalid_values, invalid_object,
}
use glasskube.Webhook.Admitted.{IsSound, validate_create-IsSound}

abbrev candidate : Candidate
candidate = record {
  package_of = record {
    name = "shop";
    namespace = "";
    package_name = "shop";
    version = "2";
    repository_name = "";
    is_deleting = false;
    is_namespace_scoped = false;
    installed_as_dependency = false;
  };
  values = [];
}

abbrev fetch : InstalledPackage → Result Faults PackageManifest
fetch pkg = ok shop

unfoldable admission : Unit {0}
unfolding validate_create validate_update validate_package program new_conflicts checked validate
    is_cluster is_namespaced validate_values keys contains collect
admission = tt

admitted :
    validate_create releases exact client repo unsorted fetch 3 (package_object candidate) ≡ ok tt
unfolding admission
admitted = refl

abbrev namespaced : Candidate
namespaced = record candidate {
  package_of = record (candidate.package_of) { is_namespace_scoped = true };
}

abbrev valued : Candidate
valued = record candidate { values = ("size", literal "3") ∷ [] }

rejected :
    (validate_create releases exact client repo unsorted fetch 3 (package_object namespaced)
      ≡ err expected_cluster_package)
    × (validate_create releases exact client repo unsorted fetch 3 (package_object valued)
        ≡ err (invalid_values (record { name = "size"; cause = no_def } ∷ [])))
    × (validate_update releases exact client repo unsorted fetch 3
          (λ old new. true)
          (package_object candidate)
          other_object
        ≡ err invalid_object)
unfolding admission
rejected = (refl, refl, refl)

validate_create-IsSound_example : IsSound releases exact client repo unsorted fetch 3 candidate
validate_create-IsSound_example =
    validate_create-IsSound releases exact client repo unsorted fetch 3 candidate admitted
