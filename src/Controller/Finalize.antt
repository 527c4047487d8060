-- ===== src/Controller/Finalize.antt =====
-- The end of a reconciliation: cleanup and the finalize methods of internal/controller/common.go, and
-- internal/controller/requeue.
use glasskube.Base.{
  String, Bool, false, ◌||◌, List, [], ◌∷◌, ◌++◌, Result, ok, err, if◌then◌else◌, is_empty, str_eq,
}
use Prim.Native.String.{◌++◌ as str_append}
use glasskube.Owners.OwnedResources.{add}
use glasskube.Controller.Conditions.{ConditionApi, set_failed}
use glasskube.Controller.Types.{PackageInfoTemplate, ReconciledPackage, Api, Context}
use glasskube.Controller.Prune.{
  prune_owned_resources, prune_owned_package_infos, prune_owned_packages,
}

-- ctrl.Result, whether it asks for another reconciliation after RequeueDuration, and the error.
pub record Outcome : Type 0 where
  pub requeues : Bool
  pub errs : List String

-- The API server, the library of conditions, and texts that fmt and strings make: the name of a
-- resource after escapeResourceName, the text of a combined error, a prefix with a list that
-- strings.Join separates by commas, and lines.
pub record Env (W S : Type 0) : Type 0 where
  pub api : Api W S
  pub condition_api : ConditionApi S
  pub escape : String → String
  pub combined : List String → String
  pub joined : String → List String → String
  pub lines : List String → String

-- names.PackageInfoName
unfoldable pub package_info_name : (String → String) → PackageInfoTemplate → String
package_info_name escape t =
    let versioned = str_append (str_append t.name "--") t.version in
    escape (
      if str_eq t.repository_name ""
      then versioned
      else str_append (str_append t.repository_name "--") versioned)

module _ {W S : Type 0} (env : Env W S) where
  -- setShouldUpdate
  abbrev pub set_should_update : Bool → Context W S → Context W S
  set_should_update value c = record c { should_update_status = c.should_update_status || value }

  -- setShouldUpdate of a change of the conditions.
  abbrev pub with_conditions : S × Bool → Context W S → Context W S
  with_conditions (s, changed) c =
      set_should_update changed (record c { pkg = record (c.pkg) { conditions = s } })

  -- setShouldUpdate of conditions.SetFailed.
  unfoldable pub fail : String → String → Context W S → Context W S
  fail reason message c =
      with_conditions (set_failed env.condition_api c.pkg.conditions reason message) c

  abbrev pub then_prune :
      (Context W S → Context W S × List String)
      → Context W S × List String
      → Context W S × List String
  then_prune prune (c, errs) = let (c', more) = prune c in (c', errs ++ more)

  abbrev pub own_info : Context W S → String
  own_info c = package_info_name env.escape c.pkg.package_info

  unfoldable pub cleanup : Context W S → Context W S × List String
  unfolding package_info_name prune_owned_resources prune_owned_package_infos prune_owned_packages
  cleanup c = then_prune (prune_owned_packages env.api false) (
      then_prune (prune_owned_package_infos env.api (own_info c) false)
        (prune_owned_resources env.api c))

  -- The owned resources and packages that this reconciliation has found.
  unfoldable pub add_owned : Context W S → Context W S
  unfolding add
  add_owned c =
      let (resources, changed) = add c.pkg.owned_resources c.current_owned_resources in
      let (packages, changed') = add c.pkg.owned_packages c.current_owned_packages in
      set_should_update changed' (
        set_should_update changed (record c {
          pkg = record (c.pkg) { owned_resources = resources; owned_packages = packages };
        }))

  abbrev pub after_cleanup : Context W S × List String → Context W S × List String
  after_cleanup (c, []) = (c, [])
  after_cleanup (c, e ∷ es) =
      (fail "InstallationFailed" (env.joined "cleanup failed: " (e ∷ es)) c, e ∷ es)

  -- The answer of the server takes the place of the package.
  abbrev pub after_write :
      Context W S
      → List String
      → W × Result String (ReconciledPackage S)
      → Context W S × List String
  after_write c errs (w, ok pkg) = (record c { world = w; pkg = pkg }, errs)
  after_write c errs (w, err e) = (record c { world = w }, errs ++ e ∷ [])

  -- The status is written if it has changed, or else the resource.
  unfoldable pub write_back : Context W S × List String → Context W S × List String
  write_back (c, errs) =
      if c.should_update_status
      then after_write c errs (env.api.update_status c.world c.pkg)
      else if c.should_update_resource
      then after_write c errs (env.api.update c.world c.pkg)
      else (c, errs)

  -- actualFinalize
  unfoldable pub actual_finalize : Context W S → Context W S × List String
  unfolding add_owned cleanup fail write_back
  actual_finalize c =
      let c' = add_owned c in
      write_back (if c'.is_success then after_cleanup (cleanup c') else (c', []))

  -- requeue.Always and requeue.OnError
  abbrev pub always : Context W S × List String → Context W S × Outcome
  always (c, errs) = (c, record { requeues = is_empty errs; errs = errs })

  abbrev pub on_error : Context W S × List String → Context W S × Outcome
  on_error (c, errs) = (c, record { requeues = false; errs = errs })

  unfoldable pub finalize : Context W S → Context W S × Outcome
  unfolding actual_finalize
  finalize c = always (actual_finalize c)

  unfoldable pub finalize_no_requeue : Context W S → Context W S × Outcome
  unfolding actual_finalize
  finalize_no_requeue c = on_error (actual_finalize c)

  unfoldable pub finalize_with_error : List String → Context W S → Context W S × Outcome
  unfolding actual_finalize
  finalize_with_error errs c = let (c', more) = actual_finalize c in always (c', errs ++ more)
