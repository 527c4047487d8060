-- ===== src/Update/Apply.antt =====
-- The updates that Apply of pkg/update/update.go makes and waits for. The API server, whose states
-- are `W`, and retry.OnError are parameters. What an answer of the server fills in on a package is
-- left out, and so is the status writer.
use glasskube.Base.{
  String, Bool, true, false, Option, none, some, List, [], ◌∷◌, ◌++◌, str_eq, Result, ok, err,
  if◌then◌else◌,
}
use glasskube.Manager.Types.{InstalledPackage}
use glasskube.Controller.Conditions.{
  Condition, ConditionStatus, condition_true, condition_false, condition_unknown,
}
use glasskube.Update.Transaction.{UpdateTransactionItem, update_required}

-- A package of an event, with its condition Ready.
pub record PackageEvent : Type 0 where
  pub uid : String
  pub status_version : String
  pub version : String
  pub ready : Option Condition

-- watch.Event, with the type assertion to a package.
pub data WatchEvent : Type 0 where
  package_event : PackageEvent → WatchEvent
  other_event : WatchEvent

pub data UpdateFault : Type 0 where
  update_not_found : UpdateFault
  update_failed : String → UpdateFault

pub data AwaitError : Type 0 where
  not_ready : Condition → AwaitError
  closed_unexpectedly : AwaitError
  watch_failed : String → AwaitError

pub data ApplyError : Type 0 where
  could_not_update : InstalledPackage → UpdateFault → ApplyError
  update_not_done : InstalledPackage → AwaitError → ApplyError

-- The calls of Apply. `watch` has the events up to the end of the channel, `retry` is
-- retry.OnError(retry.DefaultRetry, IsNotFound, ·).
pub record Cluster (W : Type 0) : Type 0 where
  pub update : W → InstalledPackage → Bool → W × Option UpdateFault
  pub watch : W → InstalledPackage → Result String (List WatchEvent)
  pub uid_of : InstalledPackage → String
  pub retry : (W → W × Option UpdateFault) → W → W × Option UpdateFault

pub record ApplyUpdateOptions : Type 0 where
  pub blocking : Bool
  pub dry_run : Bool

abbrev pub is_false : ConditionStatus → Bool
is_false condition_true = false
is_false condition_false = true
is_false condition_unknown = false

-- condition != nil && condition.Status == ConditionFalse
unfoldable pub not_ready_of : Option Condition → Option Condition
not_ready_of none = none
not_ready_of (some c) = if is_false c.status then some c else none

abbrev pub failing_or : Option Condition → Option AwaitError → Option AwaitError
failing_or none rest = rest
failing_or (some c) rest = some (not_ready c)

-- await
unfoldable pub await : String → List WatchEvent → Option AwaitError
unfolding not_ready_of
await uid [] = some closed_unexpectedly
await uid (other_event ∷ events) = await uid events
await uid (package_event e ∷ events) =
    let rest = await uid events in
    if str_eq e.uid uid
    then if str_eq e.status_version e.version then none else failing_or (not_ready_of e.ready) rest
    else rest

module _ {W : Type 0} (cluster : Cluster W) (opts : ApplyUpdateOptions) where
  abbrev pub on_watch : InstalledPackage → Result String (List WatchEvent) → Option AwaitError
  unfolding await
  on_watch pkg (err e) = some (watch_failed e)
  on_watch pkg (ok events) = await (cluster.uid_of pkg) events

  -- awaitUpdate
  unfoldable pub await_update : W → InstalledPackage → Option AwaitError
  unfolding await
  await_update w pkg = on_watch pkg (cluster.watch w pkg)

  -- The package of an item, at the version that UpdatePackage writes to its spec.
  abbrev pub at_version : UpdateTransactionItem → InstalledPackage
  at_version item = record (item.package_of) { version = item.version }

  -- UpdatePackage
  unfoldable pub update_package : UpdateTransactionItem → W → W × Option UpdateFault
  update_package item w = cluster.update w (at_version item) opts.dry_run

  -- What stops Apply after an update: the wait for it, if it blocks.
  unfoldable pub waited : W → UpdateTransactionItem → Option AwaitError
  unfolding await_update
  waited w item = if opts.blocking then await_update w (at_version item) else none

  abbrev pub stop_or :
      UpdateTransactionItem
      → W
      → Option AwaitError
      → W × Result ApplyError (List InstalledPackage)
      → W × Result ApplyError (List InstalledPackage)
  stop_or item w none next = next
  stop_or item w (some e) next = (w, err (update_not_done (at_version item) e))

  unfoldable pub finish_update :
      UpdateTransactionItem
      → W
      → Option UpdateFault
      → W × Result ApplyError (List InstalledPackage)
      → W × Result ApplyError (List InstalledPackage)
  unfolding waited
  finish_update item w (some e) next = (w, err (could_not_update (at_version item) e))
  finish_update item w none next = stop_or item w (waited w item) next

  -- The loop of Apply, with updatedPackages.
  unfoldable pub apply_from :
      List UpdateTransactionItem
      → W
      → List InstalledPackage
      → W × Result ApplyError (List InstalledPackage)
  unfolding update_package update_required finish_update
  apply_from [] w done = (w, ok done)
  apply_from (item ∷ items) w done =
      let (w', failure) = cluster.retry (update_package item) w in
      if update_required item
      then finish_update item w' failure (apply_from items w' (done ++ at_version item ∷ []))
      else apply_from items w done

  -- Apply
  unfoldable pub apply_transaction :
      List UpdateTransactionItem → W → W × Result ApplyError (List InstalledPackage)
  unfolding apply_from
  apply_transaction items w = apply_from items w []
