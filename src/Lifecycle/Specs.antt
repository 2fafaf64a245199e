-- ===== src/Lifecycle/Specs.antt =====
-- The tables of what a use case requires: `UseCaseLifecycleSpecs` (internal/analysis/lifecycle.go) and
-- `UseCaseFunctionSets` (internal/analysis/usecases.go).
use eebus_tracer.Prelude.{String, List, [], ◌∷◌}

-- `UseCaseLifecycleSpec`
pub record UseCaseLifecycleSpec : Type 0 where
  pub required_subscriptions : List String
  pub required_bindings : List String

-- `UseCaseFunctionSetSpec`
pub record UseCaseFunctionSetSpec : Type 0 where
  pub functions : List String
  pub entity_types : List String

abbrev spec : List String → List String → UseCaseLifecycleSpec
spec subscriptions bindings = record {
  required_subscriptions = subscriptions;
  required_bindings = bindings;
}

abbrev function_set : List String → List String → UseCaseFunctionSetSpec
function_set functions entity_types = record { functions = functions; entity_types = entity_types }

-- `UseCaseLifecycleSpecs`
abbrev pub use_case_lifecycle_specs : List (String × UseCaseLifecycleSpec)
use_case_lifecycle_specs =
    ("LPC", spec ("LoadControl" ∷ []) ("LoadControl" ∷ []))
    ∷ ("LPP", spec ("LoadControl" ∷ []) ("LoadControl" ∷ []))
    ∷ ("MPC", spec ("Measurement" ∷ []) ([]))
    ∷ ("MGCP", spec ("Measurement" ∷ []) ([]))
    ∷ ("EVCC", spec ("DeviceConfiguration" ∷ []) ([]))
    ∷ ("OPEV", spec ("LoadControl" ∷ []) ("LoadControl" ∷ []))
    ∷ ("DBEVC", spec ("Setpoint" ∷ []) ("Setpoint" ∷ []))
    ∷ ("MOB", spec ("Measurement" ∷ []) ([]))
    ∷ ("MOI", spec ("Measurement" ∷ []) ([]))
    ∷ ("MOPVS", spec ("Measurement" ∷ []) ([]))
    ∷ []

-- `UseCaseFunctionSets`
abbrev pub use_case_function_sets : List (String × UseCaseFunctionSetSpec)
use_case_function_sets =
    (
      "LPC",
      function_set
          ("LoadControlLimitListData" ∷ "LoadControlLimitDescriptionListData"
            ∷ "LoadControlLimitConstraintsListData" ∷ [])
          ("EVSE" ∷ []),
    )
    ∷ (
      "LPP",
      function_set
          ("LoadControlLimitListData" ∷ "LoadControlLimitDescriptionListData"
            ∷ "LoadControlLimitConstraintsListData" ∷ [])
          ([]),
    )
    ∷ (
      "MPC",
      function_set
          ("MeasurementListData" ∷ "MeasurementDescriptionListData"
            ∷ "MeasurementConstraintsListData" ∷ [])
          ("EVSE" ∷ "EV" ∷ []),
    )
    ∷ (
      "MGCP",
      function_set
          ("MeasurementListData" ∷ "MeasurementDescriptionListData"
            ∷ "MeasurementConstraintsListData" ∷ [])
          ([]),
    )
    ∷ (
      "EVCC",
      function_set
          ("DeviceConfigurationKeyValueListData" ∷ "DeviceConfigurationKeyValueDescriptionListData"
            ∷ "IdentificationListData" ∷ [])
          ("EV" ∷ []),
    )
    ∷ ("MOB", function_set ("MeasurementListData" ∷ "MeasurementDescriptionListData" ∷ []) ([]))
    ∷ ("MOI", function_set ("MeasurementListData" ∷ "MeasurementDescriptionListData" ∷ []) ([]))
    ∷ ("MOPVS", function_set ("MeasurementListData" ∷ "MeasurementDescriptionListData" ∷ []) ([]))
    ∷ (
      "OPEV",
      function_set
          ("LoadControlLimitListData" ∷ "LoadControlLimitDescriptionListData"
            ∷ "LoadControlLimitConstraintsListData" ∷ [])
          ("EV" ∷ []),
    )
    ∷ (
      "DBEVC",
      function_set
          ("SetpointListData" ∷ "SetpointDescriptionListData" ∷ "SetpointConstraintsListData" ∷ [])
          ("EV" ∷ []),
    )
    ∷ []
