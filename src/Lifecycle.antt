-- ===== src/Lifecycle.antt =====
-- The lifecycle checklist of each use case (internal/analysis/lifecycle.go), over the use cases, the
-- devices, the connections and the tracked subscriptions and bindings.
pub mod Specs
pub mod Status
pub mod Required
pub mod Steps
use Prim.Native.String.{◌++◌ as append}
use eebus_tracer.Prelude.{
  ℕ, zero, suc, ◌+◌, String, Bool, true, false, not, ◌&&◌, ◌||◌, List, [], ◌∷◌, ◌++◌, Option, none,
  some, length, map, ◌==◌, string_eq, nat_eq, list_eq, if◌then◌else◌, ltb, contains,
}
use eebus_tracer.Prelude.Maps.{lookup, insert}
use eebus_tracer.DeviceNames.{short_device_name, matches_entity_type, to_lower}
use eebus_tracer.Subscriptions.{SubscriptionEntry, BindingEntry}
use eebus_tracer.Subscriptions.Payload.{EntryData}
use eebus_tracer.Lpc.{UseCaseInfo, DeviceUseCases, Devices, has}
use eebus_tracer.Lifecycle.Specs.{
  UseCaseLifecycleSpec, use_case_lifecycle_specs, UseCaseFunctionSetSpec, use_case_function_sets,
}

-- `StepStatus`; `unset` is the empty string of a step that no branch has set.
pub data StepStatus : Type 0 where
  pass fail partial na pending unset : StepStatus

-- `LifecycleStep`
pub record LifecycleStep : Type 0 where
  pub name : String
  pub status : StepStatus
  pub details : String
  pub message_id : ℕ

-- `DeviceUseCaseLifecycle`
pub record DeviceUseCaseLifecycle : Type 0 where
  pub device_addr : String
  pub short_name : String
  pub use_case_abbr : String
  pub use_case_name : String
  pub available : Bool
  pub steps : List LifecycleStep
  pub overall_status : StepStatus

-- `ConnectionInfo`
pub record ConnectionInfo : Type 0 where
  pub device_source : String
  pub device_dest : String
  pub current_state : String
  pub last_message_id : ℕ

-- `FeatureInfo`, `EntityInfo` and `DeviceInfo` (internal/analysis/depgraph.go)
pub record FeatureInfo : Type 0 where
  pub address : String
  pub feature_type : String
  pub role : String
  pub functions : List String

pub record EntityInfo : Type 0 where
  pub address : String
  pub entity_type : String
  pub features : List FeatureInfo

pub record DeviceInfo : Type 0 where
  pub device_addr : String
  pub entities : List EntityInfo
  pub last_discovery_message_id : ℕ

-- `LifecycleInput`
pub record LifecycleInput : Type 0 where
  pub connections : List ConnectionInfo
  pub devices : List DeviceInfo
  pub use_cases : List DeviceUseCases
  pub subscriptions : List SubscriptionEntry
  pub bindings : List BindingEntry

-- What fmt prints for `%d` and `%q`.
pub record Format : Type 0 where
  pub decimal : ℕ → String
  pub quoted : String → String

-- `strings.Join` with a comma
abbrev join : List String → String
join [] = ""
join (s ∷ []) = s
join (s ∷ t ∷ ts) = append s (append ", " (join (t ∷ ts)))

-- `statusPriority`, one more than the source's number, so that its -1 is 0.
abbrev pub status_priority : StepStatus → ℕ
status_priority pass = 1
status_priority pending = 2
status_priority partial = 3
status_priority fail = 4
status_priority na = 0
status_priority unset = 0

abbrev pub is_na : StepStatus → Bool
is_na na = true
is_na _ = false

-- The body of the loop of `computeOverallStatus`, and the loop.
abbrev pub worse : StepStatus → StepStatus → StepStatus
worse worst s =
    if is_na s then worst else if ltb (status_priority worst) (status_priority s) then s else worst

abbrev pub worst_from : List LifecycleStep → StepStatus → StepStatus
worst_from [] worst = worst
worst_from (s ∷ steps) worst = worst_from steps (worse worst s.status)

-- `computeOverallStatus`
unfoldable pub compute_overall_status : List LifecycleStep → StepStatus
compute_overall_status steps = worst_from steps pass

-- `evaluateAnnounced`
abbrev pub evaluate_announced : UseCaseInfo → ℕ → LifecycleStep
evaluate_announced uc message_id = record {
  name = "UC Announced";
  status = if uc.available then pass else fail;
  details = if uc.available then "Use case available" else "Use case announced but not available";
  message_id = message_id;
}

-- The required names that are not found, and the number of those that are.
abbrev pub missing_of : (String → Bool) → List String → List String
missing_of is_found [] = []
missing_of is_found (r ∷ required) =
    let rest = missing_of is_found required in if is_found r then rest else r ∷ rest

abbrev pub found_of : (String → Bool) → List String → ℕ
found_of is_found [] = 0
found_of is_found (r ∷ required) =
    let rest = found_of is_found required in if is_found r then suc rest else rest

module _ (fmt : Format) where
  -- `evaluateHandshake`
  unfoldable pub evaluate_handshake : String → List ConnectionInfo → LifecycleStep
  evaluate_handshake device_addr [] = record {
    name = "SHIP Handshake";
    status = pending;
    details = "No connection data observed";
    message_id = 0;
  }
  evaluate_handshake device_addr (c ∷ connections) =
      let rest = evaluate_handshake device_addr connections in
      if not (c.device_source == device_addr) && not (c.device_dest == device_addr)
      then rest
      else if c.current_state == "data"
      then record {
        name = "SHIP Handshake";
        status = pass;
        details = "Connection reached data state";
        message_id = c.last_message_id;
      }
      else record {
        name = "SHIP Handshake";
        status = fail;
        details = append "Connection at " (append (fmt.quoted c.current_state) " state");
        message_id = c.last_message_id;
      }

  -- The final switch of the three steps that count what is found.
  unfoldable pub conclude :
      String → String → String → (String → Bool) → List String → ℕ → LifecycleStep
  conclude name what state is_found required message_id =
      let found = found_of is_found required in
      let of_all =
        append (fmt.decimal (length required)) (append what (append state "; missing: ")) in
      let missing = join (missing_of is_found required) in
      if found == length required
      then record {
        name = name;
        status = pass;
        details = append "All " (append (fmt.decimal found) (append what state));
        message_id = message_id;
      }
      else if ltb 0 found
      then record {
        name = name;
        status = partial;
        details = append (fmt.decimal found) (append " of " (append of_all missing));
        message_id = message_id;
      }
      else record {
        name = name;
        status = fail;
        details = append "0 of " (append of_all missing);
        message_id = message_id;
      }
