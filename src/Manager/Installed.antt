-- ===== src/Manager/Installed.antt =====
-- NewGraph of internal/dependency/manager.go: the graph of what is installed.
use glasskube.Base.{
  String, not, Option, none, some, List, [], ◌∷◌, ◌++◌, Result, ok, err, ◌>>=◌, if◌then◌else◌,
}
use glasskube.Semver.{Semver}
use glasskube.Manifest.{PackageManifest, empty_manifest}
use glasskube.Graph.Types.{Graph}
use glasskube.Graph.VertexMap.{empty_graph}
use glasskube.Graph.Changes.{Outcome, add_cluster, add_namespaced}
use glasskube.Manager.Types.{
  Call, returned, fault, failed, Run, checked, RepoAdapter, InstalledPackage, PackageInfoReply,
  found, not_found, request_error, PackageClient,
}

-- `var manifest v1alpha1.PackageManifest`, with a name.
abbrev fake_manifest : String → PackageManifest
fake_manifest name = record empty_manifest { name = name }

-- The rest of a method after `if err := g.Add...; err != nil { return err }`.
abbrev pub added : {V C : Type 0} → Outcome V C → Run V C (Graph V C)
added (g, none) = ok g
added (g, some e) = err (failed (fault e))

abbrev pub listed :
    {V C : Type 0} → Result String (List InstalledPackage) → Run V C (List InstalledPackage)
listed (ok pkgs) = ok pkgs
listed (err e) = err (failed (fault e))

abbrev info_manifest :
    RepoAdapter → InstalledPackage → PackageInfoReply → Call (Option PackageManifest)
info_manifest repo pkg (request_error e) = returned none (fault e)
info_manifest repo pkg not_found =
    repo.get_manifest_from_repo pkg.package_name pkg.version pkg.repository_name
info_manifest repo pkg (found none) =
    repo.get_manifest_from_repo pkg.package_name pkg.version pkg.repository_name
info_manifest repo pkg (found (some manifest)) = returned (some manifest) []

module _ {V C : Type 0} (lib : Semver V C) (client : PackageClient) (repo : RepoAdapter) where
  unfoldable pub get_manifest_for_installed_pkg : InstalledPackage → Call (Option PackageManifest)
  get_manifest_for_installed_pkg pkg = info_manifest repo pkg (client.get_package_info pkg)

  unfoldable pub installed_manifest : InstalledPackage → Run V C PackageManifest
  unfolding get_manifest_for_installed_pkg checked
  installed_manifest pkg =
      if pkg.is_deleting
      then ok (fake_manifest pkg.package_name)
      else checked (get_manifest_for_installed_pkg pkg)

  abbrev installed_version : InstalledPackage → String
  installed_version pkg = if pkg.is_deleting then "" else pkg.version

  -- One round of the loop of NewGraph.
  unfoldable pub add_installed : Graph V C → InstalledPackage → PackageManifest → Outcome V C
  unfolding add_cluster add_namespaced
  add_installed g pkg manifest =
      if pkg.is_namespace_scoped
      then add_namespaced lib g pkg.name pkg.namespace manifest (installed_version pkg)
          (not pkg.installed_as_dependency)
      else add_cluster lib g manifest (installed_version pkg) (not pkg.installed_as_dependency)

  unfoldable pub add_all_installed : Graph V C → List InstalledPackage → Run V C (Graph V C)
  unfolding add_installed installed_manifest
  add_all_installed g [] = ok g
  add_all_installed g (pkg ∷ pkgs) = installed_manifest pkg >>= λ manifest.
      added (add_installed g pkg manifest) >>= λ h. add_all_installed h pkgs

  -- NewGraph
  unfoldable pub new_graph : Run V C (Graph V C)
  unfolding add_all_installed
  new_graph = listed client.list_cluster_packages >>= λ cluster.
      listed client.list_packages >>= λ namespaced.
      add_all_installed empty_graph (cluster ++ namespaced)
