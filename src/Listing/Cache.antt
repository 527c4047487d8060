-- ===== src/Listing/Cache.antt =====
-- A lister that keeps its index: pkg/list/lister.go, NewListerWithRepoCache.
use glasskube.Base.{String, ◌≡◌, refl, Bool, true, List, [], Option-cases, inl, inr}
use glasskube.Listing.Lister.{ListOptions, Lister, ListClients}
use glasskube.Listing.Fetch.{index_of_call, fetch_repo_and_installed}

-- The first call of a lister that keeps its index makes one, also where its request failed: a later
-- call, with other options and whatever the clients would answer then, requests no index and takes
-- that of the first call, without an error of the index.
pub fetch_repo_and_installed_cached :
    {S : Type 0} (sort_names : List String → List String) (escape : String → String)
    (before later : ListClients S) (l : Lister) (options others : ListOptions)
    (include_clusters include_packages : Bool)
    → l.use_cache ≡ true
    → let next =
        (fetch_repo_and_installed sort_names before escape l options include_clusters
          include_packages).0 in
      index_of_call sort_names later next others
      ≡ (next, (index_of_call sort_names before l options).1, [])
unfolding fetch_repo_and_installed index_of_call
fetch_repo_and_installed_cached sort_names escape before later l options others a b uses =
    elim (Option-cases l.cached_index) [
      | inl fresh ↦ rw fresh (rw uses refl)
      | inr (index, kept) ↦ rw kept (rw uses refl)
    ]
