-- ===== src/Tests/Overview.antt =====
-- The overviews of a trace, the use cases and the connections, at work.
use eebus_tracer.Prelude.{
  ◌+◌, ◌==◌, if◌then◌else◌, true, false, ℕ, ◌≡◌, ◌↔◌, refl, String, List, [], ◌∷◌, some, Succeeds,
  map, string_eq, pair_eq, nat_eq,
}
use eebus_tracer.Prelude.Int.{pos}
use eebus_tracer.Discovery.Info.{DiscoveryEntity, DiscoveryFeature, DiscoveryData}
use eebus_tracer.Discovery.{entities_of, parse_discovery_entities, extract_result_status}
use eebus_tracer.Discovery.Merge.{merge_discovery_entities}
use eebus_tracer.Discovery.Joined.{IsMerged, merge_discovery_entities-IsMerged}
use eebus_tracer.Discovery.Entities.{Shows, entities_of-Shows}
use eebus_tracer.Model.{Message, ShipMsgType}
use eebus_tracer.Model.Payload.{Members, Json, str, int, arr, obj, nil, cons, end, member}
use eebus_tracer.Parser.{zero_message}
use eebus_tracer.UseCases.Payload.{extract_use_case_data}
use eebus_tracer.UseCases.{detect_use_cases}
use eebus_tracer.UseCases.Announced.{IsDetected, detect_use_cases-IsDetected}
use eebus_tracer.Connections.{State, StateEntry, Anomaly, detect_anomalies, build_connection_states}
use eebus_tracer.Connections.Either.{update_either}
use eebus_tracer.Connections.Complete.{IsComplete, build_connection_states-IsComplete}
use eebus_tracer.Connections.Order.{IsRegular, detect_anomalies-IsRegular}

abbrev one : String → Json → Members
one k j = member k j end

abbrev support : String → Json
support name =
    obj (
      member "useCaseName" (str name) (member "scenarioSupport" (arr (cons (int (pos 1)) nil)) end))

-- The value of a payload with the use cases of one actor.
abbrev announcement : Json → Json
announcement supports = obj (
    member "datagram"
      (obj (
        member "payload"
          (obj (
            member "cmd"
              (arr (
                cons
                  (obj (
                    member "nodeManagementUseCaseData"
                      (obj (
                        member "useCaseInformation"
                          (obj (
                            member "actor" (str "EnergyGuard")
                              (member "useCaseSupport" supports end)))
                          end))
                      end))
                  nil))
              end))
          end))
      end)

abbrev announcing : ℕ → Json → Message
announcing at supports = record zero_message {
  id = at;
  cmd_classifier = "reply";
  function_set = "NodeManagementUseCaseData";
  device_source = "hems";
  spine_payload = some (announcement supports);
}

abbrev use_case_trace : List Message
use_case_trace =
    announcing 1 (arr (cons (support "limitationOfPowerConsumption") nil))
    ∷ announcing 2 (arr (cons (support "monitoringOfBattery") nil))
    ∷ []

detect_use_cases-IsDetected_example :
    Succeeds (IsDetected use_case_trace) (detect_use_cases use_case_trace)
detect_use_cases-IsDetected_example = detect_use_cases-IsDetected use_case_trace

-- Of an array of use cases each is read, and of a single one that stands without an array none.
use_cases_array :
    map
      (λ g. map (λ u. u.abbreviation) g.use_cases)
      (extract_use_case_data (some (announcement (arr (cons (support "monitoringOfBattery") nil)))))
    ≡ ("MOB" ∷ []) ∷ []
unfolding extract_use_case_data
use_cases_array = refl

use_cases_single : extract_use_case_data (some (announcement (support "monitoringOfBattery"))) ≡ []
unfolding extract_use_case_data
use_cases_single = refl

abbrev shipped : ℕ → ShipMsgType → String → String → Message
shipped at kind src dst = record zero_message {
  id = at;
  timestamp = at;
  ship_msg_type = kind;
  source_addr = src;
  dest_addr = dst;
}

-- A connection in both directions, and a message that takes no part in it.
abbrev connection_trace : List Message
connection_trace =
    shipped 1 ShipMsgType.init "a" "b"
    ∷ shipped 2 ShipMsgType.connection_hello "b" "a"
    ∷ shipped 3 ShipMsgType.data_msg "a" ""
    ∷ shipped 4 ShipMsgType.connection_close "a" "b"
    ∷ []

build_connection_states-IsComplete_example :
    Succeeds (IsComplete connection_trace) (build_connection_states connection_trace)
build_connection_states-IsComplete_example = build_connection_states-IsComplete connection_trace

connections_seen :
    build_connection_states connection_trace
    ≡ some (
        record {
          device_source = "a";
          device_dest = "b";
          states =
              record { state = State.init; timestamp = 1; message_id = 1 }
              ∷ record { state = State.hello; timestamp = 2; message_id = 2 }
              ∷ record { state = State.closed; timestamp = 4; message_id = 4 }
              ∷ [];
          current_state = some State.closed;
          anomalies = Anomaly.closed_before_data ∷ [];
        }
        ∷ [])
unfolding build_connection_states update_either detect_anomalies
connections_seen = refl

abbrev entries : List State → List StateEntry
entries [] = []
entries (s ∷ states) = record { state = s; timestamp = 0; message_id = 0 } ∷ entries states

-- A connection that is closed and opened again.
abbrev reconnected : List StateEntry
reconnected = entries (
    State.init ∷ State.hello ∷ State.data_exchange ∷ State.closed ∷ State.init ∷ State.hello
    ∷ State.data_exchange ∷ [])

detect_anomalies-IsRegular_example : (detect_anomalies reconnected ≡ []) ↔ IsRegular reconnected
detect_anomalies-IsRegular_example = detect_anomalies-IsRegular reconnected

reconnected_disordered : detect_anomalies reconnected ≡ Anomaly.out_of_order ∷ []
unfolding detect_anomalies
reconnected_disordered = refl

-- An announcement of two entities, each with a feature.
abbrev feature : String → DiscoveryFeature
feature name = record { address = name; feature_type = ""; role = "server"; functions = [] }

abbrev entity : String → List DiscoveryFeature → DiscoveryEntity
entity address features = record { address = address; entity_type = "CEM"; features = features }

abbrev discovery : DiscoveryData
discovery = record {
  entities = entity "[0]" [] ∷ entity "[1]" [] ∷ [];
  features = ("[0]", feature "0") ∷ ("[1]", feature "1") ∷ ("[1]", feature "2") ∷ [];
}

-- A capacity that doubles, as that of a short slice does.
abbrev doubled : ℕ → ℕ
doubled n = if n == 0 then 1 else n + n

entities_of-Shows_example :
    Shows discovery.features discovery.entities (entities_of doubled discovery)
entities_of-Shows_example = entities_of-Shows doubled discovery

-- The feature of the first entity is lost, as the second append moves the slice.
first_features_lost :
    entities_of doubled discovery
    ≡ entity "[0]" [] ∷ entity "[1]" (feature "1" ∷ feature "2" ∷ []) ∷ []
unfolding entities_of
first_features_lost = refl

-- In an array that is large enough from the start it is kept.
first_features_kept :
    entities_of (λ n. 4) discovery
    ≡ entity "[0]" (feature "0" ∷ []) ∷ entity "[1]" (feature "1" ∷ feature "2" ∷ []) ∷ []
unfolding entities_of
first_features_kept = refl

abbrev discovery_payload : Json
discovery_payload = obj (
    one "datagram" (
      obj (
        one "payload" (
          obj (
            one "cmd" (
              obj (
                one "nodeManagementDetailedDiscoveryData" (
                  obj (
                    one "entityInformation" (
                      arr (
                        cons
                          (obj (
                            one "description" (
                              obj (
                                member "entityAddress" (obj (one "entity" (int (pos 1))))
                                  (one "entityType" (str "CEM"))))))
                          nil)))))))))))

discovery_read :
    parse_discovery_entities (λ j. "1") doubled (some discovery_payload) ≡ entity "1" [] ∷ []
unfolding parse_discovery_entities entities_of
discovery_read = refl

abbrev result_payload : ℕ → Json
result_payload n = obj (
    one "datagram" (
      obj (
        one "payload"
          (obj (one "cmd" (obj (one "resultData" (obj (one "errorNumber" (int (pos n)))))))))))

results_read :
    (extract_result_status (some (result_payload 0)) ≡ some true)
    × (extract_result_status (some (result_payload 7)) ≡ some false)
unfolding extract_result_status
results_read = (refl, refl)

-- Two announcements, which share an entity.
abbrev announced_first : List DiscoveryEntity
announced_first = entity "[0]" (feature "0" ∷ []) ∷ entity "[1]" (feature "1" ∷ []) ∷ []

abbrev announced_later : List DiscoveryEntity
announced_later =
    entity "[1]" (feature "1" ∷ feature "2" ∷ []) ∷ entity "[2]" (feature "1" ∷ []) ∷ []

merge_discovery_entities-IsMerged_example :
    Succeeds
      (IsMerged announced_first announced_later)
      (merge_discovery_entities announced_first announced_later)
merge_discovery_entities-IsMerged_example =
    merge_discovery_entities-IsMerged announced_first announced_later

entities_merged :
    merge_discovery_entities announced_first announced_later
    ≡ some (
        entity "[0]" (feature "0" ∷ [])
        ∷ entity "[1]" (feature "1" ∷ feature "2" ∷ [])
        ∷ entity "[2]" (feature "1" ∷ [])
        ∷ [])
unfolding merge_discovery_entities
entities_merged = refl
