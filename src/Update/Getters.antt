-- ===== src/Update/Getters.antt =====
-- pkg/update/getter.go: the packages that an update is about. The client of the API server is a
-- parameter.
use glasskube.Base.{String, Bool, true, false, List, [], ◌∷◌, Result, ok, ◌>>=◌}
use glasskube.Manager.Types.{InstalledPackage}

-- The implementations of PackagesGetter. A package's name is its namespace and its name.
pub data PackagesGetter : Type 0 where
  exact_packages_getter : List InstalledPackage → PackagesGetter
  cluster_packages_getter : PackagesGetter
  packages_getter : String → PackagesGetter
  cluster_packages_with_name_getter : List String → PackagesGetter
  packages_with_name_getter : List (String × String) → PackagesGetter

-- GetAll and Get of the clients for cluster packages and for the packages of a namespace.
pub record GetterClient : Type 0 where
  pub all_cluster_packages : Result String (List InstalledPackage)
  pub all_packages : String → Result String (List InstalledPackage)
  pub get_cluster_package : String → Result String InstalledPackage
  pub get_package : String → String → Result String InstalledPackage

-- Explicit
unfoldable pub explicit : PackagesGetter → Bool
explicit (exact_packages_getter pkgs) = true
explicit cluster_packages_getter = false
explicit (packages_getter ns) = false
explicit (cluster_packages_with_name_getter names) = true
explicit (packages_with_name_getter names) = true

module _ (client : GetterClient) where
  -- The loop of clusterPackagesWithNameGetter.Get.
  unfoldable pub cluster_packages_named : List String → Result String (List InstalledPackage)
  cluster_packages_named [] = ok []
  cluster_packages_named (name ∷ names) = client.get_cluster_package name >>= λ pkg.
      cluster_packages_named names >>= λ pkgs. ok (pkg ∷ pkgs)

  -- The loop of packagesWithNameGetter.Get.
  unfoldable pub packages_named : List (String × String) → Result String (List InstalledPackage)
  packages_named [] = ok []
  packages_named ((namespace, name) ∷ names) =
      client.get_package namespace name >>= λ pkg. packages_named names >>= λ pkgs. ok (pkg ∷ pkgs)

  -- Get
  unfoldable pub get_of : PackagesGetter → Result String (List InstalledPackage)
  unfolding cluster_packages_named packages_named
  get_of (exact_packages_getter pkgs) = ok pkgs
  get_of cluster_packages_getter = client.all_cluster_packages
  get_of (packages_getter ns) = client.all_packages ns
  get_of (cluster_packages_with_name_getter names) = cluster_packages_named names
  get_of (packages_with_name_getter names) = packages_named names

-- GetClusterPackageWithName
unfoldable pub get_cluster_package_with_name : String → PackagesGetter
get_cluster_package_with_name name = cluster_packages_with_name_getter (name ∷ [])

-- GetPackagesWithNames, which does not use its argument.
unfoldable pub get_packages_with_names : List (String × String) → PackagesGetter
get_packages_with_names namespaced_names = packages_with_name_getter []

-- GetPackageWithName
unfoldable pub get_package_with_name : String → String → PackagesGetter
get_package_with_name namespace name = packages_with_name_getter ((namespace, name) ∷ [])
