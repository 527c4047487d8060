-- ===== src/Controller/Success.antt =====
-- When a reconciliation succeeds: reconcilePackageInfoReady of internal/controller/common.go.
use glasskube.Base.{String, ◌≡◌, true, Option, some, List, [], ok, All}
use glasskube.Manifest.{PackageManifest}
use glasskube.Values.Resolver.{ResolveError, resolve, validate_resolved_values}
use glasskube.Patch.Target.{TargetPatch}
use glasskube.Controller.Types.{PackageInfo, Context}
use glasskube.Controller.Finalize.{Env}
use glasskube.Controller.Adapters.{Adapter, run_adapters}
use glasskube.Controller.Required.{DependencyEnv}
use glasskube.Controller.Dependencies.{ensure_dependencies}
use glasskube.Controller.Reconcile.{ValueEnv, prepare_manifest}
use glasskube.Controller.Selected.{RunsEach}
use glasskube.Controller.Installed.{RequiredAreInstalled}
use glasskube.Controller.Verdicts.{IsReady}

module _ {W S R J T P V C : Type 0} (env : Env W S) (vals : ValueEnv W S R J T P)
    (deps : DependencyEnv W S V C) (pi : PackageInfo S) where
  -- How a reconciliation succeeds: the dependencies are there, the values are resolved and fit, there
  -- are patches and an adapter for each format of the manifest, and each adapter has returned a
  -- result that is ready.
  pub record Installs (c : Context W S) : Type 0 where
    pub manifest : PackageManifest
    pub has_manifest : pi.manifest ≡ some manifest
    pub checked : Context W S
    pub dependencies : ensure_dependencies env deps manifest c ≡ some (checked, true)
    pub values : List (String × String)
    pub errors : List (String × ResolveError)
    pub resolved :
        resolve (vals.value_client checked.world) vals.value_fuel checked.pkg.values
        ≡ some (values, errors)
    pub all_resolved : errors ≡ []
    pub valid : validate_resolved_values vals.regexp manifest values ≡ []
    pub patches : List (TargetPatch P)
    pub adapters : List (Adapter W S P)
    pub prepared :
        prepare_manifest env vals manifest checked (values, errors) ≡ ok (patches, adapters)
    pub no_errors : (run_adapters pi patches adapters (checked, [], [])).2 ≡ []
    pub all_ready : All IsReady (run_adapters pi patches adapters (checked, [], [])).1
    -- Each dependency and each component was there, and running.
    pub are_installed : RequiredAreInstalled env deps manifest c.pkg
    -- The adapter of each format of the manifest is one of those that have run.
    pub runs_each : RunsEach vals.adapters manifest adapters
