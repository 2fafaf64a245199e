-- ===== src/Lifecycle/Steps.antt =====
-- The steps on discovery, subscriptions and bindings and the whole checklist
-- (internal/analysis/lifecycle.go).
use eebus_tracer.Prelude.{
  ℕ, String, Bool, true, false, not, ◌&&◌, List, [], ◌∷◌, ◌++◌, Option, none, some, ◌==◌, string_eq,
  nat_eq, list_eq, if◌then◌else◌, contains, map,
}
use eebus_tracer.Prelude.Maps.{lookup, insert}
use eebus_tracer.DeviceNames.{short_device_name, matches_entity_type, to_lower}
use eebus_tracer.Subscriptions.{SubscriptionEntry, BindingEntry}
use eebus_tracer.Lpc.{UseCaseInfo, DeviceUseCases, Devices, has}
use eebus_tracer.Lifecycle.Specs.{
  UseCaseLifecycleSpec, use_case_lifecycle_specs, use_case_function_sets,
}
use eebus_tracer.Lifecycle.{
  na, pending, LifecycleStep, DeviceUseCaseLifecycle, FeatureInfo, EntityInfo, DeviceInfo,
  LifecycleInput, Format, compute_overall_status, evaluate_handshake, evaluate_announced, conclude,
}

-- What the steps on subscriptions and on bindings read of an entry.
pub record Link : Type 0 where
  pub server_device : String
  pub server_feature_type : String
  pub active : Bool
  pub message_id : ℕ

abbrev pub subscription_link : SubscriptionEntry → Link
subscription_link s = record {
  server_device = s.data_of.server_device;
  server_feature_type = s.data_of.server_feature_type;
  active = s.active;
  message_id = s.message_id;
}

abbrev pub binding_link : BindingEntry → Link
binding_link b = record {
  server_device = b.data_of.server_device;
  server_feature_type = b.data_of.server_feature_type;
  active = b.active;
  message_id = b.message_id;
}

-- `activeTypes` and the step's message.
pub record Active : Type 0 where
  pub active_types : Devices
  pub message_id : ℕ

-- The loop over the entries.
unfoldable pub collect_active : String → List Link → Active → Active
unfolding insert
collect_active device [] a = a
collect_active device (l ∷ links) a =
    let seen = if a.message_id == 0 then l.message_id else a.message_id in
    collect_active device links (
      if not (l.server_device == device)
      then a
      else if l.active && not (l.server_feature_type == "")
      then record {
        active_types = insert l.server_feature_type true a.active_types;
        message_id = l.message_id;
      }
      else record { active_types = a.active_types; message_id = seen })

-- The functions of the entities whose type the use case allows, lower-case, as `funcSet`.
abbrev features_functions : List FeatureInfo → List String
features_functions [] = []
features_functions (f ∷ features) = f.functions ++ features_functions features

unfoldable pub entities_functions : List String → List EntityInfo → List String
unfolding matches_entity_type
entities_functions allowed [] = []
entities_functions allowed (e ∷ entities) =
    let rest = entities_functions allowed entities in
    if not (matches_entity_type e.entity_type allowed)
    then rest
    else features_functions e.features ++ rest

-- The variables of the loop over the devices in `evaluateDiscovery`.
pub record Discovered : Type 0 where
  pub device_found : Bool
  pub all_functions : List String
  pub message_id : ℕ

unfoldable pub collect_functions : String → List String → List DeviceInfo → Discovered → Discovered
unfolding entities_functions
collect_functions device allowed [] d = d
collect_functions device allowed (dev ∷ devices) d = collect_functions device allowed devices (
    if not (dev.device_addr == device) then d else record {
      device_found = true;
      all_functions = d.all_functions ++ entities_functions allowed dev.entities;
      message_id = dev.last_discovery_message_id;
    })

module _ (fmt : Format) where
  -- The part that `evaluateSubscriptions` and `evaluateBindings` share.
  unfoldable pub evaluate_links : String → String → String → List String → List Link → LifecycleStep
  unfolding collect_active conclude
  evaluate_links name what device [] links = record {
    name = name;
    status = na;
    details = "";
    message_id = 0;
  }
  evaluate_links name what device (r ∷ required) links =
      let a = collect_active device links (record { active_types = []; message_id = 0 }) in
      conclude fmt name what " active" (λ q. has q a.active_types) (r ∷ required) a.message_id

  -- `evaluateSubscriptions`; without a spec nothing is required.
  unfoldable pub evaluate_subscriptions :
      String → Option UseCaseLifecycleSpec → List SubscriptionEntry → LifecycleStep
  unfolding evaluate_links
  evaluate_subscriptions device spec subscriptions =
      let required : List String = elim spec [ none ↦ [] | some s ↦ s.required_subscriptions ] in
      let step =
        evaluate_links "Subscriptions" " subscriptions" device required
          (map subscription_link subscriptions) in
      elim required [ [] ↦ record step { details = "No subscriptions required" } | r ∷ rs ↦ step ]

  -- `evaluateBindings`
  unfoldable pub evaluate_bindings :
      String → Option UseCaseLifecycleSpec → List BindingEntry → LifecycleStep
  unfolding evaluate_links
  evaluate_bindings device spec bindings =
      let required : List String = elim spec [ none ↦ [] | some s ↦ s.required_bindings ] in
      let step =
        evaluate_links "Bindings" " bindings" device required (map binding_link bindings) in
      elim required [ [] ↦ record step { details = "No bindings required" } | r ∷ rs ↦ step ]

  abbrev pending_step : String → ℕ → LifecycleStep
  pending_step details message_id = record {
    name = "Feature Discovery";
    status = pending;
    details = details;
    message_id = message_id;
  }

  -- `evaluateDiscovery`
  unfoldable pub evaluate_discovery : String → String → List DeviceInfo → LifecycleStep
  unfolding collect_functions conclude
  evaluate_discovery device uc_abbr devices =
      let functions : List String = elim (lookup uc_abbr use_case_function_sets) [
        | none ↦ []
        | some s ↦ s.functions
      ] in
      let allowed : List String = elim (lookup uc_abbr use_case_function_sets) [
        | none ↦ []
        | some s ↦ s.entity_types
      ] in
      let d =
        collect_functions device allowed devices
          (record { device_found = false; all_functions = []; message_id = 0 }) in
      elim functions [
        | [] ↦ pending_step "No function set mapping for this use case" 0
        | f ∷ fs ↦
            if not d.device_found
            then pending_step "Device not found in discovery data" d.message_id
            else conclude fmt "Feature Discovery" " function sets" " discovered"
                (λ q. contains (map to_lower d.all_functions) (to_lower q)) (f ∷ fs) d.message_id
      ]

  -- The checklist of one use case of one device.
  abbrev pub lifecycle_of : LifecycleInput → DeviceUseCases → UseCaseInfo → DeviceUseCaseLifecycle
  unfolding short_device_name compute_overall_status evaluate_handshake evaluate_discovery
      evaluate_subscriptions evaluate_bindings lookup
  lifecycle_of input duc uc =
      let spec = lookup uc.abbreviation use_case_lifecycle_specs in
      let steps =
        evaluate_handshake fmt duc.device_addr input.connections
        ∷ evaluate_discovery duc.device_addr uc.abbreviation input.devices
        ∷ evaluate_announced uc duc.message_id
        ∷ evaluate_subscriptions duc.device_addr spec input.subscriptions
        ∷ evaluate_bindings duc.device_addr spec input.bindings
        ∷ [] in
      record {
        device_addr = duc.device_addr;
        short_name = short_device_name duc.device_addr;
        use_case_abbr = uc.abbreviation;
        use_case_name = uc.use_case_name;
        available = uc.available;
        steps = steps;
        overall_status = compute_overall_status steps;
      }

  unfoldable pub lifecycles_loop :
      LifecycleInput → List DeviceUseCases → List DeviceUseCaseLifecycle
  unfolding lifecycle_of
  lifecycles_loop input [] = []
  lifecycles_loop input (duc ∷ ducs) =
      map (lifecycle_of input duc) duc.use_cases ++ lifecycles_loop input ducs

  -- `EvaluateLifecycles`
  unfoldable pub evaluate_lifecycles : LifecycleInput → List DeviceUseCaseLifecycle
  unfolding lifecycles_loop
  evaluate_lifecycles input = lifecycles_loop input input.use_cases
