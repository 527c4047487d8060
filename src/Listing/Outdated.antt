-- ===== src/Listing/Outdated.antt =====
-- The outdated cluster packages, as GetClusterPackagesWithStatus of pkg/list/lister.go lists them.
use mathlib.Core.Path.{subst}
use glasskube.Base.{
  String, ◌≡◌, ◌≢◌, ◌↔◌, refl, sym, ap, ◌∙◌, Bool, true, false, not, ◌&&◌, ◌||◌, is_some, Option,
  none, some, List, [], ◌∷◌, str_eq, eq_iff, Bool-cases, inl, inr, IsIn, here, there, IsIn-if,
  IsIn-if_later, ok,
}
use glasskube.Manifest.{is_cluster}
use glasskube.Repo.Types.{MetaIndexItem}
use glasskube.Controller.Types.{ReconciledPackage}
use glasskube.Controller.Conditions.{ConditionApi}
use glasskube.Listing.Lister.{
  ListedInfo, PackageWithStatus, ListOptions, Lister, ListClients, Listed, differs_from,
  cluster_package_should_be_included,
}
use glasskube.Listing.Fetch.{
  index_of_call, fetch_repo_and_installed, with_status, cluster_packages_of,
  get_cluster_packages_with_status,
}
use glasskube.Listing.Found.{
  HasUniqueNames, and_false, found, found-item, found-some, some-found, cluster_results,
  results-found, found-results,
}

-- An installed cluster package, at another version than the latest one of an item of the index.
abbrev pub IsOutdated :
    {S : Type 0}
    → List MetaIndexItem
    → List (ReconciledPackage S)
    → MetaIndexItem
    → ReconciledPackage S
    → Type 0
IsOutdated index clusters item pkg =
    IsIn item index
    × (is_cluster item.item.scope ≡ true)
    × IsIn pkg clusters
    × (item.item.name ≡ pkg.name)
    × (pkg.package_info.version ≢ item.item.latest_version)

-- Every entry of a list with the item and the package.
abbrev pub Lists :
    {S : Type 0} → List (PackageWithStatus S) → MetaIndexItem → ReconciledPackage S → Type 0
Lists {S} xs item pkg =
    (x : PackageWithStatus S) × IsIn x xs × (x.meta ≡ item) × (x.package_of ≡ some pkg)

abbrev version_of : {S : Type 0} → ReconciledPackage S → String
version_of pkg = pkg.package_info.version

abbrev latest_of : MetaIndexItem → String
latest_of item = item.item.latest_version

included_by :
    {S : Type 0} (only_installed : Bool) (latest : String) (o : Option (ReconciledPackage S))
    → (not (only_installed && not (is_some o) || (true && not (differs_from latest o))) ≡ true)
      ↔ ((pkg : ReconciledPackage S) × (o ≡ some pkg) × (pkg.package_info.version ≢ latest))
included_by true latest none = (λ e. cc, λ (pkg, e, differs). cc)
included_by false latest none = (λ e. cc, λ (pkg, e, differs). cc)
included_by only_installed latest (some pkg) =
    elim (Bool-cases (str_eq pkg.package_info.version latest)) [
      | inl same ↦ (
        λ e. cc (rw (same, and_false only_installed) at e),
        λ (p, e, differs).
            let is_it : pkg ≡ p = cc e in
            elim (differs
              (ap version_of (sym is_it) ∙ (eq_iff pkg.package_info.version latest).0 same)) [ ],
      )
      | inr other ↦ (
        λ e. (pkg, refl, λ same. cc (other, (eq_iff pkg.package_info.version latest).1 same)),
        λ h. rw (other, and_false only_installed) refl,
      )
    ]

-- What the options let through, where they ask for the outdated packages only.
included_iff :
    {S : Type 0} (item : Listed S) (options : ListOptions)
    → options.only_outdated ≡ true
    → (cluster_package_should_be_included item options ≡ true) ↔ (
        (pkg : ReconciledPackage S) × (item.cluster_package ≡ some pkg)
        × (pkg.package_info.version ≢ item.index_item.item.latest_version))
unfolding cluster_package_should_be_included
included_iff item options outdated =
    rw outdated
      (included_by options.only_installed item.index_item.item.latest_version item.cluster_package)

module _ {S : Type 0} (conditions : ConditionApi S) (options : ListOptions) where
  cluster_packages_of-IsIn :
      (items : List (Listed S)) {x : PackageWithStatus S}
      → IsIn x (cluster_packages_of conditions options items)
      → (item : Listed S) × IsIn item items
        × (cluster_package_should_be_included item options ≡ true)
        × (with_status conditions item item.cluster_package ≡ x)
  unfolding cluster_packages_of
  cluster_packages_of-IsIn [] m = elim m [ ]
  cluster_packages_of-IsIn (item ∷ items) m =
      elim (IsIn-if (cluster_package_should_be_included item options)
        {y = with_status conditions item item.cluster_package}
        {xs = cluster_packages_of conditions options items} m) [
          | inl (included, e) ↦ (item, here refl, included, e)
          | inr later ↦
              let (it, it_in, included, e) = cluster_packages_of-IsIn items later in
              (it, there it_in, included, e)
        ]

  IsIn-cluster_packages_of :
      (items : List (Listed S)) {item : Listed S}
      → IsIn item items
      → cluster_package_should_be_included item options ≡ true
      → IsIn
          (with_status conditions item item.cluster_package)
          (cluster_packages_of conditions options items)
  unfolding cluster_packages_of
  IsIn-cluster_packages_of [] m included = elim m [ ]
  IsIn-cluster_packages_of (it ∷ items) m included = elim m [
    | here e ↦
        rw (ap (λ (x : Listed S). cluster_package_should_be_included x options) e ∙ included)
          (here (ap (λ (x : Listed S). with_status conditions x x.cluster_package) e))
    | there later ↦
        IsIn-if_later (cluster_package_should_be_included it options)
          (with_status conditions it it.cluster_package)
          (IsIn-cluster_packages_of items later included)
  ]

-- The package of a found item is the one that it was looked up for.
module _ {S : Type 0} (conditions : ConditionApi S) (options : ListOptions)
    (escape : String → String) (infos : List ListedInfo) (clusters : List (ReconciledPackage S))
    (index : List MetaIndexItem) (outdated : options.only_outdated ≡ true)
    (unique : HasUniqueNames clusters) where
  cluster_results-IsOutdated_iff :
      (item : MetaIndexItem) (pkg : ReconciledPackage S)
      → Lists
          (cluster_packages_of conditions options (cluster_results escape infos clusters index))
          item
          pkg
        ↔ IsOutdated index clusters item pkg
  unfolding with_status
  cluster_results-IsOutdated_iff item pkg = (
    λ (x, x_in, meta, of).
        let (r, r_in, included, is_x) = cluster_packages_of-IsIn conditions options _ x_in in
        let (it, it_in, scoped, is_r) = results-found escape infos clusters index r_in in
        let r_item : r.index_item ≡ it =
          sym (ap (λ (y : Listed S). y.index_item) is_r) ∙ found-item escape infos clusters it in
        let is_item : it ≡ item =
          sym r_item ∙ (ap (λ (y : PackageWithStatus S). y.meta) is_x ∙ meta) in
        let is_pkg : r.cluster_package ≡ some pkg =
          ap (λ (y : PackageWithStatus S). y.package_of) is_x ∙ of in
        let (m, named) =
          found-some escape infos clusters it
            (ap (λ (y : Listed S). y.cluster_package) is_r ∙ is_pkg) in
        let (p, is_p, differs) = (included_iff r options outdated).0 included in
        let same_pkg : p ≡ pkg = cc (is_p, is_pkg) in
        subst (λ (i : MetaIndexItem). IsOutdated index clusters i pkg) is_item
          (
            it_in,
            scoped,
            m,
            named,
            λ current. differs (ap version_of same_pkg ∙ (current ∙ sym (ap latest_of r_item))),
          ),
    λ (it_in, cluster, m, named, differs).
        let r = found escape infos clusters item in
        let is_pkg = some-found escape infos clusters item unique m named in
        let r_item = found-item escape infos clusters item in
        let included =
          (included_iff r options outdated).1
            (pkg, is_pkg, λ current. differs (current ∙ ap latest_of r_item)) in
        (
          with_status conditions r r.cluster_package,
          IsIn-cluster_packages_of conditions options _
              (found-results escape infos clusters index it_in cluster) included,
          r_item,
          is_pkg,
        ),
  )

module _ {S : Type 0} (escape : String → String) (sort_names : List String → List String)
    (clients : ListClients S) (l : Lister) (options : ListOptions) where
  -- What a call gets, where the requests to the cluster succeed.
  fetched_items :
      {clusters : List (ReconciledPackage S)} {infos : List ListedInfo}
      → clients.cluster_packages ≡ ok clusters
      → clients.package_infos ≡ ok infos
      → (known : List ListedInfo) × ((fetch_repo_and_installed sort_names clients escape l options
            true false).1
          ≡ cluster_results escape known clusters (index_of_call sort_names clients l options).1)
  unfolding fetch_repo_and_installed
  fetched_items {infos} e f = elim (Bool-cases options.include_package_infos) [
    | inl asks ↦ (infos, rw (e, f, asks) refl)
    | inr not_asked ↦ ([], rw (e, not_asked) refl)
  ]

-- Where the cluster answers the lists, and the names of cluster packages are unique, the list of the
-- outdated cluster packages has an entry for an item of the index and a package exactly if the item
-- is of cluster scope, the package is installed under its name, and the package's version is another
-- than the latest of the item. It is so with an error of the index too, for the items there are.
pub get_cluster_packages_with_status-IsOutdated_iff :
    {S : Type 0} (conditions : ConditionApi S) (escape : String → String)
    (sort_names : List String → List String) (clients : ListClients S) (l : Lister)
    (options : ListOptions) {clusters : List (ReconciledPackage S)} {infos : List ListedInfo}
    (item : MetaIndexItem) (pkg : ReconciledPackage S)
    → options.only_outdated ≡ true
    → clients.cluster_packages ≡ ok clusters
    → clients.package_infos ≡ ok infos
    → HasUniqueNames clusters
    → Lists
        (get_cluster_packages_with_status conditions escape sort_names clients l options).1
        item
        pkg
      ↔ IsOutdated (index_of_call sort_names clients l options).1 clusters item pkg
unfolding get_cluster_packages_with_status
get_cluster_packages_with_status-IsOutdated_iff conditions escape sort_names clients l options
      {clusters} {infos} item pkg outdated e f unique =
    let (known, items) = fetched_items escape sort_names clients l options e f in
    rw items (
      cluster_results-IsOutdated_iff conditions options escape known clusters
        (index_of_call sort_names clients l options).1 outdated unique item pkg)
