-- ===== src/Controller/Verdicts.antt =====
-- What the results of the adapters mean: handleAdapterResults of internal/controller/common.go.
use glasskube.Base.{◌≡◌, Bool, Option, none, some, List, [], ◌∷◌, if◌then◌else◌}
use glasskube.Controller.Adapters.{ReconcileResult, ready_result}

-- The first element that passes a test.
unfoldable pub find_first : (ReconcileResult → Bool) → List ReconcileResult → Option ReconcileResult
find_first p [] = none
find_first p (x ∷ xs) = if p x then some x else find_first p xs

abbrev or_else : Option ReconcileResult → Option ReconcileResult → Option ReconcileResult
or_else none o = o
or_else (some a) o = some a

abbrev pub IsReady : ReconcileResult → Type 0
IsReady r = r.kind ≡ ready_result
