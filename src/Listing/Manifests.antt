-- ===== src/Listing/Manifests.antt =====
-- The manifests that GetPackagesWithStatus of pkg/list/lister.go reports.
use glasskube.Base.{String, ◌≡◌, sym, ◌∙◌, ap, true, false, List, [], ◌∷◌, inl, inr, IsIn, IsIn-if}
use glasskube.Controller.Types.{ReconciledPackage}
use glasskube.Controller.Conditions.{ConditionApi}
use glasskube.Listing.Lister.{
  PackageWithStatus, PackagesWithStatus, ListOptions, Lister, ListClients, Listed,
  package_should_be_included,
}
use glasskube.Listing.Fetch.{
  manifest_of_info, with_status, included_of, is_listed, packages_of, fetch_repo_and_installed,
  get_packages_with_status,
}

module _ {S : Type 0} (conditions : ConditionApi S) (options : ListOptions) where
  included_of-manifest :
      (item : Listed S) (pkgs : List (ReconciledPackage S)) {x : PackageWithStatus S}
      → IsIn x (included_of conditions options item pkgs)
      → x.installed_manifest ≡ manifest_of_info conditions item.package_info
  unfolding included_of with_status
  included_of-manifest item [] m = elim m [ ]
  included_of-manifest item (pkg ∷ pkgs) m =
      elim (IsIn-if (package_should_be_included item pkg options) m) [
        | inl is_it ↦ sym (ap (λ (y : PackageWithStatus S). y.installed_manifest) is_it.1)
        | inr later ↦ included_of-manifest item pkgs later
      ]

  -- A group of the list has the packages of one item of the index.
  packages_of-group :
      (items : List (Listed S)) {g : PackagesWithStatus S}
      → IsIn g (packages_of conditions options items)
      → (item : Listed S) × (g.packages ≡ included_of conditions options item item.packages)
  unfolding packages_of
  packages_of-group [] m = elim m [ ]
  packages_of-group (item ∷ items) {g} m =
      elim (IsIn-if
        (is_listed conditions options item (included_of conditions options item item.packages))
        {y = record {
          meta = item.index_item;
          packages = included_of conditions options item item.packages;
        }}
        {xs = packages_of conditions options items} m) [
          | inl is_it ↦ (item, sym (ap (λ (h : PackagesWithStatus S). h.packages) is_it.1))
          | inr later ↦ packages_of-group items later
        ]

-- All the packages that GetPackagesWithStatus lists under one item of the index are reported with
-- the same manifest, whatever versions of it they have installed.
pub get_packages_with_status_shares :
    {S : Type 0} (conditions : ConditionApi S) (escape : String → String)
    (sort_names : List String → List String) (clients : ListClients S) (l : Lister)
    (options : ListOptions) (g : PackagesWithStatus S) (x y : PackageWithStatus S)
    → IsIn g (get_packages_with_status conditions escape sort_names clients l options).1
    → IsIn x g.packages
    → IsIn y g.packages
    → x.installed_manifest ≡ y.installed_manifest
unfolding get_packages_with_status
get_packages_with_status_shares conditions escape sort_names clients l options g x y m x_in y_in =
    let (item, e) =
      packages_of-group conditions options
        (fetch_repo_and_installed sort_names clients escape l options false true).1 m in
    included_of-manifest conditions options item item.packages (rw e at x_in)
    ∙ sym (included_of-manifest conditions options item item.packages (rw e at y_in))
