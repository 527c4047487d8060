-- ===== src/Controller/Conditions.antt =====
-- internal/controller/conditions/conditions.go. The functions of k8s.io/apimachinery/pkg/api/meta on
-- a list of conditions are the parameter `ConditionApi`. Logs, events and telemetry are left out.
use glasskube.Base.{
  String, ◌≡◌, ◌∙◌, refl, Bool, true, false, ◌||◌, Option, none, some, List, [], ◌∷◌, arith, str_eq,
  if◌then◌else◌,
}

pub data ConditionStatus : Type 0 where
  condition_true condition_false condition_unknown : ConditionStatus

-- metav1.Condition, without the time and the generation of its last change.
pub record Condition : Type 0 where
  pub type : String
  pub status : ConditionStatus
  pub reason : String
  pub message : String

-- condition.Ready and condition.Failed
abbrev pub ready : String
ready = "Ready"

abbrev pub failed : String
failed = "Failed"

-- `S` is a list of conditions. `set_status_condition` returns the new list, and whether it has changed.
pub record ConditionApi (S : Type 0) : Type 0 where
  pub is_unset : S → Bool
  pub set_status_condition : S → Condition → S × Bool
  pub find_status_condition : S → String → Option Condition
  pub is_status_condition_true : S → String → Bool
  pub is_status_condition_false : S → String → Bool

-- What the API server answers to an update of the status of an object: nil, or an error.
abbrev pub Update : Type 0 → Type 0 → Type 0
Update S W = W → S → W × Option String

module _ {S : Type 0} (api : ConditionApi S) where
  -- setStatusConditions
  unfoldable pub set_status_conditions : S → List Condition → Bool → S × Bool
  set_status_conditions s [] needs_update = (s, needs_update)
  set_status_conditions s (c ∷ cs) needs_update =
      let (s', changed) = api.set_status_condition s c in
      set_status_conditions s' cs (changed || needs_update)

  abbrev pub both : ConditionStatus → ConditionStatus → String → String → List Condition
  both ready_status failed_status reason message =
      record { type = ready; status = ready_status; reason = reason; message = message }
      ∷ record { type = failed; status = failed_status; reason = reason; message = message }
      ∷ []

  unfoldable pub set_unknown : S → String → String → S × Bool
  unfolding set_status_conditions
  set_unknown s reason message =
      set_status_conditions s (both condition_unknown condition_unknown reason message) false

  unfoldable pub set_ready : S → String → String → S × Bool
  unfolding set_status_conditions
  set_ready s reason message =
      set_status_conditions s (both condition_true condition_false reason message) false

  unfoldable pub set_failed : S → String → String → S × Bool
  unfolding set_status_conditions
  set_failed s reason message =
      set_status_conditions s (both condition_false condition_true reason message) false

  module _ {W : Type 0} (status_update : Update S W) where
    -- updateAfterConditionsChanged, if the conditions have changed.
    abbrev update_if_changed : W → S × Bool → W × S × Bool × Option String
    update_if_changed w (s, false) = (w, s, false, none)
    update_if_changed w (s, true) = let (w', e) = status_update w s in (w', s, true, e)

    unfoldable pub set_unknown_and_update : W → S → String → String → W × S × Bool × Option String
    unfolding set_unknown
    set_unknown_and_update w s reason message = update_if_changed w (set_unknown s reason message)

    unfoldable pub set_ready_and_update : W → S → String → String → W × S × Bool × Option String
    unfolding set_ready
    set_ready_and_update w s reason message = update_if_changed w (set_ready s reason message)

    unfoldable pub set_failed_and_update : W → S → String → String → W × S × Bool × Option String
    unfolding set_failed
    set_failed_and_update w s reason message = update_if_changed w (set_failed s reason message)

    unfoldable pub set_initial_and_update : W → S → W × S × Bool × Option String
    unfolding set_unknown_and_update
    set_initial_and_update w s =
        if api.is_unset s
        then set_unknown_and_update w s "Reconciling" "Starting reconciliation"
        else (w, s, false, none)

-- The documented behaviour of SetStatusCondition and FindStatusCondition.
pub record IsLawful {S : Type 0} (api : ConditionApi S) : Type 0 where
  pub find_set :
      (s : S) (c : Condition) (type : String)
      → api.find_status_condition (api.set_status_condition s c).0 type
        ≡ (if str_eq c.type type then some c else api.find_status_condition s type)
  pub unchanged :
      (s : S) (c : Condition)
      → (api.set_status_condition s c).1 ≡ false
      → (api.set_status_condition s c).0 ≡ s

-- The conditions Ready and Failed are set, others are kept, and if the answer is that nothing has
-- changed, then nothing has.
pub record Sets {S : Type 0} (api : ConditionApi S) (s : S)
    (ready_status failed_status : ConditionStatus) (reason message : String) (result : S × Bool)
    : Type 0 where
  pub is_ready :
      api.find_status_condition result.0 ready
      ≡ some (record { type = ready; status = ready_status; reason = reason; message = message })
  pub is_failed :
      api.find_status_condition result.0 failed
      ≡ some (record { type = failed; status = failed_status; reason = reason; message = message })
  pub others :
      (type : String)
      → str_eq ready type ≡ false
      → str_eq failed type ≡ false
      → api.find_status_condition result.0 type ≡ api.find_status_condition s type
  pub quiet : result.1 ≡ false → result.0 ≡ s

module _ {S : Type 0} (api : ConditionApi S) (lawful : IsLawful api) (s : S)
    (reason message : String) where
  both-Sets :
      (ready_status failed_status : ConditionStatus)
      → Sets api s ready_status failed_status reason message
          (set_status_conditions api s (both api ready_status failed_status reason message) false)
  unfolding set_status_conditions
  both-Sets ready_status failed_status =
      let r : Condition = record {
        type = ready;
        status = ready_status;
        reason = reason;
        message = message;
      } in
      let f : Condition = record {
        type = failed;
        status = failed_status;
        reason = reason;
        message = message;
      } in
      let s' : S = (api.set_status_condition s r).0 in
      record {
        is_ready = lawful.find_set s' f ready ∙ lawful.find_set s r ready;
        is_failed = lawful.find_set s' f failed;
        others =
            λ type p q. rw (lawful.find_set s' f type, q) (rw (lawful.find_set s r type, p) refl);
        quiet = λ e.
            lawful.unchanged s' f (ground (arith, e)) ∙ lawful.unchanged s r (ground (arith, e));
      }

  -- With a library of conditions that behaves as documented, SetReady leaves Ready true and Failed
  -- false, SetFailed the reverse, and SetUnknown both unknown, with the reason and the message. They
  -- keep every other condition, and where they answer that nothing has changed, nothing has.
  pub set_conditions_lem :
      Sets api s condition_true condition_false reason message (set_ready api s reason message)
      × Sets api s condition_false condition_true reason message (set_failed api s reason message)
      × Sets api s condition_unknown condition_unknown reason message
          (set_unknown api s reason message)
  unfolding set_ready set_failed set_unknown
  set_conditions_lem = (
    both-Sets condition_true condition_false,
    both-Sets condition_false condition_true,
    both-Sets condition_unknown condition_unknown,
  )
