-- ===== src/Update/Samples.antt =====
-- The update of `shop` from version 1 to the latest version of the index.
use glasskube.Base.{ℕ, none, ◌≡◌, refl, false, [], ◌∷◌, ok, err}
use glasskube.Semver.{is_upgradable}
use glasskube.Semver.Samples.{releases, Release}
use glasskube.Graph.Samples.{shop, program}
use glasskube.Manager.Types.{InstalledPackage, checked}
use glasskube.Manager.Verdict.{validate_package, new_conflicts}
use glasskube.Manager.Samples.{client, repo, unsorted, verdict}
use glasskube.Update.Transaction.{
  UpdateTransaction, RepoClient, prepare, prepare_for_version, is_empty_transaction, not_upgradable,
}
use glasskube.Update.Upgrades.{OnlyUpgrades, prepare-OnlyUpgrades}

abbrev pub installed_shop : InstalledPackage
installed_shop = record {
  name = "shop";
  namespace = "";
  package_name = "shop";
  version = "1";
  repository_name = "";
  is_deleting = false;
  is_namespace_scoped = false;
  installed_as_dependency = false;
}

abbrev repo_client : RepoClient
repo_client = record {
  fetch_index = λ pkg. ok (record { name = "shop"; latest_version = "2"; scope = none } ∷ []);
  fetch_manifest = λ pkg version. ok shop;
}

abbrev transaction : UpdateTransaction Release ℕ
transaction = record {
  items = record { package_of = installed_shop; version = "2" } ∷ [];
  conflict_items = [];
  requirements = verdict.requirements;
}

unfoldable updating : Unit {0}
unfolding prepare prepare_for_version is_empty_transaction is_upgradable validate_package program
    new_conflicts checked
updating = tt

prepared :
    prepare releases client repo unsorted repo_client 3 (installed_shop ∷ []) false ≡ ok transaction
unfolding updating
prepared = refl

update_test :
    (prepare_for_version releases client repo unsorted repo_client 3 installed_shop "1"
      ≡ err not_upgradable)
    × (is_empty_transaction transaction ≡ false)
unfolding updating
update_test = (refl, refl)

prepare-OnlyUpgrades_example : OnlyUpgrades releases transaction
prepare-OnlyUpgrades_example =
    prepare-OnlyUpgrades releases client repo unsorted repo_client 3 (installed_shop ∷ []) false
      transaction prepared
