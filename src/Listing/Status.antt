-- ===== src/Listing/Status.antt =====
-- pkg/client/package_status.go.
use glasskube.Base.{String, Bool, true, false, Option, none, some, if◌then◌else◌}
use glasskube.Controller.Types.{ReconciledPackage}
use glasskube.Controller.Conditions.{
  ConditionStatus, condition_true, condition_false, condition_unknown, Condition, ConditionApi,
  ready, failed,
}

pub record PackageStatus : Type 0 where
  pub status : String
  pub reason : String
  pub message : String

-- newPackageStatus
unfoldable pub new_package_status : Condition → PackageStatus
new_package_status c = record { status = c.type; reason = c.reason; message = c.message }

-- NewPendingStatus
unfoldable pub new_pending_status : PackageStatus
new_pending_status = record { status = "Pending"; reason = ""; message = "" }

-- NewUninstallingStatus
unfoldable pub new_uninstalling_status : PackageStatus
new_uninstalling_status = record { status = "Uninstalling"; reason = ""; message = "" }

abbrev pub is_true : ConditionStatus → Bool
is_true condition_true = true
is_true condition_false = false
is_true condition_unknown = false

-- The status of a condition that there is and that is true.
unfoldable pub status_if_true : Option Condition → Option PackageStatus
unfolding new_package_status
status_if_true none = none
status_if_true (some c) = if is_true c.status then some (new_package_status c) else none

abbrev pub or_status : {A : Type 0} → Option A → Option A → Option A
or_status none b = b
or_status (some a) b = some a

module _ {S : Type 0} (api : ConditionApi S) where
  -- GetStatus
  unfoldable pub get_status : S → Option PackageStatus
  unfolding status_if_true
  get_status s =
      or_status (status_if_true (api.find_status_condition s ready))
        (status_if_true (api.find_status_condition s failed))

  -- GetStatusOrPending, of a pointer that may be nil.
  unfoldable pub get_status_or_pending : Option (ReconciledPackage S) → Option PackageStatus
  unfolding get_status new_uninstalling_status new_pending_status
  get_status_or_pending none = none
  get_status_or_pending (some pkg) =
      if pkg.is_deleting
      then some new_uninstalling_status
      else or_status (get_status pkg.conditions) (some new_pending_status)
