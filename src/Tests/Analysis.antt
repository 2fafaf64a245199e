-- ===== src/Tests/Analysis.antt =====
-- The analyses of a trace at work.
use eebus_tracer.Prelude.{
  map, any, contains, arith, ℕ, ◌≤◌, ◌≡◌, ◌≢◌, ◌↔◌, ◌⊎◌, refl, String, true, false, List, [], ◌∷◌,
  none, some, All, Succeeds, nat_eq, string_eq, pair_eq,
}
use eebus_tracer.Prelude.Maps.{lookup}
use eebus_tracer.Prelude.Int.{pos}
use eebus_tracer.Model.{Message, MessageSummary, to_summary}
use eebus_tracer.Model.Payload.{Json, str, int, arr, obj, nil, cons, end, member}
use eebus_tracer.Parser.{zero_message}
use eebus_tracer.Subscriptions.{
  SubscriptionKey, entry_key, new_subscription, Tracker, empty_tracker,
  track_subscriptions_and_bindings,
}
use eebus_tracer.Subscriptions.Tables.{Distinct, upsert_all, collect}
use eebus_tracer.Subscriptions.Payload.{extract_subscription_data, uint_to_str}
use eebus_tracer.Subscriptions.Digits.{read_decimal, read_decimal-uint_to_str}
use eebus_tracer.Subscriptions.Result.{Faithful, track_subscriptions_and_bindings-Faithful}
use eebus_tracer.Heartbeat.{collect_heartbeat_gaps_by_pair, gaps_between}
use eebus_tracer.Heartbeat.Gaps.{
  GapsByPair, heartbeats_of, collect_heartbeat_gaps_by_pair-GapsByPair,
}
use eebus_tracer.Lpc
use eebus_tracer.Lpc.{
  Devices, is_late, check_heartbeat_for, summarize_checks, LpcCheckResult, inconclusive,
}
use eebus_tracer.Lpc.Verdicts.{IsViolation, check_heartbeat_for-fail, check_heartbeat_for-pass}
use eebus_tracer.Flow.{build_correlation_pairs, extract_flow_participants}
use eebus_tracer.Flow.Members.{addr_of, names, extract_flow_participants_lem}
use eebus_tracer.Flow.Pairs.{IsPair, build_correlation_pairs-IsPair}
use eebus_tracer.WriteTracking.{WriteEntry, effective_entry, build_effective_state}
use eebus_tracer.WriteTracking.Effective.{IsEffective, build_effective_state-IsEffective}
use eebus_tracer.Lifecycle
use eebus_tracer.Lifecycle.{LifecycleStep, compute_overall_status, status_priority}
use eebus_tracer.Lifecycle.Status.{IsAttained, compute_overall_status_lem}
use eebus_tracer.Lifecycle.Steps.{Link, evaluate_links}
use eebus_tracer.Lifecycle.Required.{is_served, evaluate_links_lem}
use eebus_tracer.DeviceNames.{short_device_name}

-- An address in a payload.
abbrev address : String → ℕ → Json
address device feature = obj (
    member "device" (str device)
      (member "entity" (arr (cons (int (pos 1)) nil)) (member "feature" (int (pos feature)) end)))

-- A SPINE payload with one command.
abbrev payload : String → String → Json → Json
payload command entry content = obj (
    member "datagram"
      (obj (
        member "payload"
          (obj (
            member "cmd"
              (arr (cons (obj (member command (obj (member entry content end)) end)) nil)) end))
          end))
      end)

abbrev link_of : ℕ → Json
link_of feature = obj (
    member "clientAddress" (address "hems" 1)
      (member "serverAddress" (address "wallbox" feature) end))

abbrev request : ℕ → ℕ → Message
request at feature = record zero_message {
  id = at;
  timestamp = at;
  cmd_classifier = "call";
  function_set = "NodeManagementSubscriptionRequestCall";
  spine_payload =
      some
        (payload "nodeManagementSubscriptionRequestCall" "subscriptionRequest" (link_of feature));
}

-- A snapshot that lists one subscription.
abbrev snapshot : ℕ → ℕ → Message
snapshot at feature = record zero_message {
  id = at;
  timestamp = at;
  cmd_classifier = "reply";
  function_set = "NodeManagementSubscriptionData";
  spine_payload =
      some (payload "nodeManagementSubscriptionData" "subscriptionEntry" (link_of feature));
}

abbrev subscription_trace : List Message
subscription_trace = request 10 7 ∷ request 20 8 ∷ snapshot 30 8 ∷ []

track_subscriptions_and_bindings-Faithful_example :
    Succeeds
      (Faithful subscription_trace (pos 5))
      (track_subscriptions_and_bindings subscription_trace (pos 5))
track_subscriptions_and_bindings-Faithful_example =
    track_subscriptions_and_bindings-Faithful subscription_trace (pos 5)

abbrev first_key : SubscriptionKey
first_key = (("hems", "1.1"), ("wallbox", "1.7"))

abbrev first_open : Tracker
first_open = record empty_tracker {
  subs =
      upsert_all entry_key (new_subscription (request 10 7))
        (extract_subscription_data (request 10 7).spine_payload)
        (record { entries = []; order = [] });
}

abbrev heartbeat : ℕ → Message
heartbeat at = record zero_message {
  id = at;
  timestamp = at;
  function_set = "DeviceDiagnosisHeartbeatData";
  device_source = "hems";
  device_dest = "wallbox";
}

abbrev heartbeats : List Message
heartbeats = heartbeat 1_000_000_000 ∷ heartbeat 51_000_000_000 ∷ heartbeat 112_000_000_000 ∷ []

collect_heartbeat_gaps_by_pair-GapsByPair_example :
    GapsByPair heartbeats
      (collect_heartbeat_gaps_by_pair heartbeats).0
      (collect_heartbeat_gaps_by_pair heartbeats).1
collect_heartbeat_gaps_by_pair-GapsByPair_example =
    collect_heartbeat_gaps_by_pair-GapsByPair heartbeats

abbrev lpc_format : Lpc.Format
lpc_format = record { seconds = λ d. "61"; decimal = λ n. "1" }

abbrev guards : Devices
guards = ("hems", true) ∷ []

abbrev blank : LpcCheckResult
blank = record {
  requirement_id = "LPC-TS-006";
  title = "";
  description = "";
  atc_refs = [];
  verdict = inconclusive;
  summary = "";
  evidence = [];
}

late_fails : (check_heartbeat_for lpc_format heartbeats guards "EG" blank).verdict ≡ Lpc.fail
unfolding check_heartbeat_for
late_fails = refl

check_heartbeat_for-fail_example :
    ((check_heartbeat_for lpc_format heartbeats guards "EG" blank).evidence ≢ [])
    × All
        (IsViolation lpc_format guards heartbeats)
        (check_heartbeat_for lpc_format heartbeats guards "EG" blank).evidence
check_heartbeat_for-fail_example =
    check_heartbeat_for-fail lpc_format heartbeats guards "EG" blank late_fails

abbrev on_time : List Message
on_time = heartbeat 1_000_000_000 ∷ heartbeat 61_000_000_000 ∷ []

on_time_passes : (check_heartbeat_for lpc_format on_time guards "EG" blank).verdict ≡ Lpc.pass
unfolding check_heartbeat_for
on_time_passes = refl

check_heartbeat_for-pass_example :
    All (λ g. is_late g ≡ false) (gaps_between (heartbeats_of ("hems", "wallbox") on_time))
unfolding lookup
check_heartbeat_for-pass_example =
    check_heartbeat_for-pass lpc_format on_time guards "EG" blank ("hems", "wallbox") on_time_passes
      refl

abbrev flow : List MessageSummary
flow =
    to_summary (record zero_message { id = 1; cmd_classifier = "read"; msg_counter = "5" })
    ∷ to_summary (record zero_message { id = 2; cmd_classifier = "reply"; msg_counter_ref = "5" })
    ∷ []

build_correlation_pairs-IsPair_example : All (IsPair flow) (build_correlation_pairs flow)
build_correlation_pairs-IsPair_example = build_correlation_pairs-IsPair flow

abbrev step : Lifecycle.StepStatus → LifecycleStep
step status = record { name = ""; status = status; details = ""; message_id = 0 }

abbrev checklist : List LifecycleStep
checklist = step Lifecycle.pass ∷ step Lifecycle.partial ∷ step Lifecycle.na ∷ []

compute_overall_status_lem_example :
    All
      (λ s. status_priority s.status ≤ status_priority (compute_overall_status checklist))
      checklist
    × ((compute_overall_status checklist ≡ Lifecycle.pass)
        ⊎ IsAttained checklist (compute_overall_status checklist))
compute_overall_status_lem_example = compute_overall_status_lem checklist

abbrev links : List Link
links =
    record {
      server_device = "wallbox";
      server_feature_type = "LoadControl";
      active = true;
      message_id = 3;
    }
    ∷ []

abbrev lifecycle_format : Lifecycle.Format
lifecycle_format = record { decimal = λ n. "1"; quoted = λ s. s }

abbrev bindings_step : LifecycleStep
bindings_step =
    evaluate_links lifecycle_format "Bindings" " bindings" "wallbox" ("LoadControl" ∷ []) links

evaluate_links_lem_example :
    (bindings_step.status ≡ Lifecycle.pass
      ↔ All (λ q. is_served "wallbox" links q ≡ true) ("LoadControl" ∷ []))
    × (bindings_step.status ≡ Lifecycle.fail
        ↔ All (λ q. is_served "wallbox" links q ≡ false) ("LoadControl" ∷ []))
evaluate_links_lem_example =
    evaluate_links_lem lifecycle_format "Bindings" " bindings" "wallbox" "LoadControl" [] links

name_shortened : short_device_name "d:_i:37916_CEM-4" ≡ "CEM-4"
unfolding short_device_name
name_shortened = refl

read_decimal-uint_to_str_example : read_decimal 0 (uint_to_str 4712) ≡ 4712
read_decimal-uint_to_str_example = read_decimal-uint_to_str 4712 (omega arith)

-- A message before any SPINE address, and one with device addresses.
abbrev devices_flow : List MessageSummary
devices_flow =
    to_summary
      (record zero_message { source_addr = "192.0.2.1:4712"; dest_addr = "192.0.2.2:4712" })
    ∷ to_summary (record zero_message { device_source = "hems"; device_dest = "" })
    ∷ []

extract_flow_participants_lem_example :
    Distinct (map addr_of (extract_flow_participants devices_flow))
    × ((a : String)
        → contains (map addr_of (extract_flow_participants devices_flow)) a
          ≡ any (names a) devices_flow)
extract_flow_participants_lem_example = extract_flow_participants_lem devices_flow

abbrev results : List LpcCheckResult
results = blank ∷ record blank { verdict = Lpc.fail } ∷ record blank { verdict = Lpc.pass } ∷ []

verdicts_counted : ((summarize_checks results).passed ≡ 1) × ((summarize_checks results).failed ≡ 1)
verdicts_counted = (refl, refl)

abbrev write : String → ℕ → WriteEntry ℕ
write data_type watts = record {
  timestamp = watts;
  message_id = watts;
  source = "hems";
  dest = "wallbox";
  data_type = data_type;
  item_id = "0";
  label = "";
  unit = "";
  scope_type = "";
  value = watts;
  is_active = none;
  result = "pending";
  latency_ms = none;
  duration_ms = none;
}

-- A limit and a setpoint with one id.
abbrev writes : List (WriteEntry ℕ)
writes = write "loadcontrol" 4200 ∷ write "setpoint" 5000 ∷ []

limit_hidden : build_effective_state writes ≡ some (effective_entry (write "setpoint" 5000) ∷ [])
unfolding build_effective_state upsert_all collect
limit_hidden = refl

build_effective_state-IsEffective_example :
    Succeeds (IsEffective writes) (build_effective_state writes)
build_effective_state-IsEffective_example = build_effective_state-IsEffective writes
