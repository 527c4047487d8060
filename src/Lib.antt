-- ===== src/Lib.antt =====
-- A verification library for Glasskube, a package manager for Kubernetes.
-- Paths are from the root of the repository.
--
-- Assoc, Strconv, Text and Base are shared: Go's maps as association lists, strconv.Atoi and
-- ParseBool, the functions of strings that split texts, and the names of the libraries. A `range`
-- over a map visits the keys in list order, except where an order is a parameter.
--
-- Semver is internal/semver. github.com/Masterminds/semver/v3 is not part of the repository: it is
-- the record `Semver`, an argument of the definitions that use it. Its documented laws, that
-- precedence is a total order without regard to build metadata, are `IsLawful`, a hypothesis of the
-- theorems about upgrades. `Semver.Samples.releases` satisfies them.
--
-- Manifest is api/v1alpha1/package_manifest.go and package_manifest_values.go, with the fields that
-- the modelled code reads.
--
-- Graph is internal/dependency/graph: `VertexMap` has the methods of `vertexMap`, `Queries` the
-- methods that read, `Validate` the method of that name, `Changes` those that change the graph. A
-- *vertex is the key under which the vertex map holds it; vertices are never removed, so that this
-- is the same vertex. `Prune` is a loop until nothing changes: it has fuel for one round more than
-- there are installed vertices, and the order of the visits in round n is `order n`, any function.
-- The proofs are in `WellFormed`, `Consistency`, `Add`, `Max` and `Prune` with their children.
--
-- Values is internal/manifestvalues: `Validate` is validate.go with errors.go, `Resolver` is
-- resolver.go with the value sources of api/v1alpha1/common.go. Go's regexp is the parameter
-- `Regexp`, and the clients for ConfigMaps, Secrets and packages are the parameter `Client`, both
-- without laws. `Resolver.resolve_value` has fuel for the references from package to package, since
-- the code bounds their number by nothing. `Options` is values_options.go of its directory cli. The
-- proofs are in `Accept`, `Chain`, `Defaults` and `Spelled`.
--
-- Manager is internal/dependency/manager.go with types.go, internal/repo/error and the interfaces of
-- internal/adapter/types.go, which are the parameters `PackageClient` and `RepoAdapter`: `Installed`
-- has NewGraph, `Resolve` getVersions, add and addDependencies, `Verdict` isErrNew, errorToConflict
-- and Validate. It builds graphs by the operations of Graph. A pointer that may be nil is an
-- `Option`, and its dereference can be a `panic`. The depth of the recursion of addDependencies is
-- bounded by fuel: each call installs a package that was missing, so that the number of the packages
-- that can be met is enough. slices.SortFunc is the parameter `sort`. The proofs are in `Plan`, `News`
-- and `Sound`, and on the fuel in `Covered`, `Fuel`, `Chosen`, `Ending` and `Enough`.
--
-- Webhook is internal/webhook/package_validator.go: `Validator` has the three handlers, which call
-- Values and Manager as the code does. The repository client and reflect.DeepEqual are parameters.
-- The proofs are in `Admitted`.
--
-- Owners is internal/controller/owners/utils/owned_resources.go: `OwnedResources` has Add, Remove and
-- MarkForDeletion on a list of references, which the proofs of `Sets` treat as a set of resources.
--
-- Update is pkg/update: `Transaction` has IsEmpty, PrepareForVersion and prepare of update.go, which
-- call Semver and Manager, `Apply` has Apply, UpdatePackage and the wait for the operator, and
-- `Getters` is getter.go. The client of a package's repository, the API server with the events of a
-- watch, and retry.OnError are parameters. The proofs are in `Upgrades`, `Applied` and `Await`.
--
-- Patch is internal/resourcepatch/patch.go with internal/manifesttransformations/patches.go: `Target`
-- has GenerateTargetPatch and what it matches, `Generate` the functions that generate the patches of
-- values and of transformations, `Apply` those that apply patches to a resource and a HelmRelease.
-- encoding/json, text/template, json-patch and ParseGroupVersion are the parameter `PatchLibrary`.
-- The proofs are in `Complete`.
--
-- Repo is internal/repo/client/metaclient.go (`Meta`) and internal/dependency/default_repo_adapter.go
-- (`Adapter`), which gives the dependency manager its RepoAdapter. The clients of single
-- repositories are the parameter `RepoClients`. The proofs are in `Spec`, `MetaIndex`, `MetaTarget`
-- and `Panics`.
--
-- Clientset is clientset.go, defaultclient.go and auth of internal/repo/client, with
-- internal/contenttype and internal/httperror: `Auth` has newAuthenticator, `Select` ForRepoWithName,
-- ForRepo and Default, `Response` the checks of a response, `Fetch` the methods of the client of one
-- repository. A call returns the next state. The calls are taken one after another: the mutex of an
-- item of the cache does this for its fetches, but ForRepoWithName reads the map of the clients under
-- one mutex, while ForRepo writes it under another, so that calls of both that overlap are not
-- modelled. HTTP, URLs, encoding/base64, the decoder, the clock and the API server are parameters. A
-- client is known by the number of its New. The proofs are in `Literal`, `Coherent`, `Current`, `Forgotten` and `Age`.
--
-- Controller is internal/controller/common.go with internal/controller/conditions: `Types` is the
-- state of one reconciliation and the API server, whose states `W` and answers are the parameter
-- `Api`; `Conditions` has the functions of conditions.go. `Slices` is a Go slice with its array, since
-- the loops of `Prune`, the three pruneOwned methods, range over an array that they write.
-- `Finalize` has cleanup and the finalize methods, `Adapters` the selection and the run of the
-- manifest adapters with handleAdapterResults and afterSuccess, `Required` and `Dependencies`
-- ensureDependencies, which calls Manager and Repo, `Reconcile` reconcilePackageInfoReady, which calls
-- Values and Patch, and `Loop` reconcile with the methods for a deletion. Logs, events and telemetry
-- are left out; a reconciliation that does not return, by a panic or for want of fuel in Manager or
-- Values, is `none`. An update of a package or of its status answers with the package as the server
-- has it then, which takes the place of the package; `Kept` states which of the calls change the
-- finalizers there. The proofs are in `Prune.Spec`, `Prune.Skipped`, `Frame`, `Verdicts`, `Selected`,
-- `Installed`, `Ensured`, `Success`, `Kept`, `Written` and `Deletion`.
--
-- `Controller.Infos` has the Reconcile methods of packageinfo_controller.go and
-- packagerepository_controller.go, with their proofs in `Controller.Synced`, and `Webhook.Repositories`
-- the handlers of internal/webhook/packagerepository_webhook.go.
--
-- Listing is pkg/list (`Lister` has result.go and the functions of lister.go on one item, `Fetch` its
-- calls) with pkg/client/package_status.go (`Status`). The clients of the cluster and the index are
-- the parameter `ListClients`, and the conditions those of Controller. The goroutines of a call write
-- variables of their own and are run one after the other. A call returns the next state of the lister.
-- The proofs are in `Found`, `Outdated`, `Manifests` and `Cache`.
--
-- Plain is internal/manifest/plain, with what it calls of internal/controller/labels and owners:
-- `Objects` has the namespaces of the objects of a manifest, `Adapter` the rest of adapter.go and
-- prefix.go. An object is its kind, its name, its namespace and a content `B`; the API server with the
-- states `W`, the download, Kustomize and the patches are parameters, and a slice out of its bounds is
-- `panicked`. The proofs are in `Namespaces` and `Ready`.
--
-- Not modelled: the adapters for Helm and Kustomize, the setup of the controllers, the filters of
-- owner references, the installation, opening and bootstrapping of packages, the command line, the web
-- interface and telemetry, which are calls of other systems for the most part.
pub mod Base
pub mod Assoc
pub mod Strconv
pub mod Text
pub mod Semver
pub mod Manifest
pub mod Graph
pub mod Values
pub mod Listing
pub mod Manager
pub mod Webhook
pub mod Owners
pub mod Update
pub mod Patch
pub mod Plain
pub mod Repo
pub mod Controller
pub mod Clientset
