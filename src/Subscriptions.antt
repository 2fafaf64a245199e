-- ===== src/Subscriptions.antt =====
-- The subscription and binding tracker (internal/analysis/subscriptions.go). The tables are Go's maps
-- beside the slices of their keys; a `time.Time` is its nanoseconds since Go's zero time, and the
-- range of `time.Duration` is kept.
pub mod Payload
pub mod Tables
pub mod Timeline
pub mod Digits
pub mod Result
use Prim.Native.String.{◌++◌ as append}
use eebus_tracer.Prelude.{
  ℕ, suc, ◌+◌, ◌-◌, ◌^◌, min, String, Bool, true, false, not, ◌&&◌, ◌||◌, List, [], ◌∷◌, ◌++◌,
  Option, none, some, map, ◌==◌, string_eq, pair_eq, if◌then◌else◌, is_some, ltb, leb,
}
use eebus_tracer.Prelude.Maps.{map_entries}
use eebus_tracer.Subscriptions.Tables.{Table, no_entries, upsert_all, remove_all, see_all, collect}
use eebus_tracer.Prelude.Int.{ℤ, pos, negsuc, ltb_ℤ}
use eebus_tracer.Model.{Message}
use eebus_tracer.Model.Payload.{Json}
use eebus_tracer.Subscriptions.Payload.{EntryData, extract_subscription_data, extract_binding_data}

-- `subscriptionKey`: the client's device and feature, the server's device and feature.
abbrev pub SubscriptionKey : Type 0
SubscriptionKey = (String × String) × (String × String)

abbrev pub entry_key : EntryData → SubscriptionKey
entry_key d = ((d.client_device, d.client_feature), (d.server_device, d.server_feature))

-- `SubscriptionEntry`
pub record SubscriptionEntry : Type 0 where
  pub data_of : EntryData
  pub active : Bool
  pub created_at : ℕ
  pub removed_at : Option ℕ
  pub last_notify_at : Option ℕ
  pub notify_count : ℕ
  pub stale : Bool
  pub message_id : ℕ

-- `BindingEntry`
pub record BindingEntry : Type 0 where
  pub data_of : EntryData
  pub active : Bool
  pub created_at : ℕ
  pub removed_at : Option ℕ
  pub message_id : ℕ

-- The state of `TrackSubscriptionsAndBindings`: `subMap`, `subOrder`, `bindMap`, `bindOrder`.
pub record Tracker : Type 0 where
  pub subs : Table SubscriptionKey SubscriptionEntry
  pub binds : Table SubscriptionKey BindingEntry

abbrev pub new_subscription : Message → EntryData → SubscriptionEntry
new_subscription msg d = record {
  data_of = d;
  active = true;
  created_at = msg.timestamp;
  removed_at = none;
  last_notify_at = none;
  notify_count = 0;
  stale = false;
  message_id = msg.id;
}

abbrev pub new_binding : Message → EntryData → BindingEntry
new_binding msg d = record {
  data_of = d;
  active = true;
  created_at = msg.timestamp;
  removed_at = none;
  message_id = msg.id;
}

abbrev pub remove_subscription : Message → SubscriptionEntry → SubscriptionEntry
remove_subscription msg s = record s { active = false; removed_at = some msg.timestamp }

abbrev pub remove_binding : Message → BindingEntry → BindingEntry
remove_binding msg b = record b { active = false; removed_at = some msg.timestamp }

-- `matchesSubscriptionNotify`
abbrev pub matches_subscription_notify : Message → SubscriptionKey → Bool
matches_subscription_notify msg ((client_device, client_feature), (server_device, server_feature)) =
    if not (msg.device_source == server_device) || not (msg.device_dest == client_device)
    then false
    else if server_feature == ""
    then true
    else (if not (msg.entity_source == "") && not (msg.feature_source == "")
        then append msg.entity_source (append "." msg.feature_source)
        else msg.feature_source)
      == server_feature

abbrev count_notify : Message → SubscriptionEntry → SubscriptionEntry
count_notify msg s = record s {
  last_notify_at = some msg.timestamp;
  notify_count = suc s.notify_count;
}

-- The body of the loop that follows a notify.
unfoldable pub see_notify : Message → SubscriptionKey → SubscriptionEntry → SubscriptionEntry
see_notify msg key s =
    if not s.active
    then s
    else if matches_subscription_notify msg key
    then count_notify msg s
    else s

abbrev pub is_snapshot : Message → Bool
is_snapshot msg = msg.cmd_classifier == "reply" || msg.cmd_classifier == "notify"

abbrev pub is_call : Message → Bool
is_call msg = msg.cmd_classifier == "call"

-- The cases of the switch that write to `subMap`.
unfoldable pub switch_subs :
    Message → Table SubscriptionKey SubscriptionEntry → Table SubscriptionKey SubscriptionEntry
unfolding upsert_all remove_all extract_subscription_data
switch_subs msg t =
    if msg.function_set == "NodeManagementSubscriptionData"
    then if is_snapshot msg
      then upsert_all entry_key (new_subscription msg) (extract_subscription_data msg.spine_payload)
          t
      else t
    else if msg.function_set == "NodeManagementSubscriptionRequestCall"
    then if is_call msg
      then upsert_all entry_key (new_subscription msg) (extract_subscription_data msg.spine_payload)
          t
      else t
    else if msg.function_set == "NodeManagementSubscriptionDeleteCall"
    then if is_call msg
      then remove_all entry_key (remove_subscription msg)
          (extract_subscription_data msg.spine_payload) t
      else t
    else t

-- The cases of the switch that write to `bindMap`.
unfoldable pub switch_binds :
    Message → Table SubscriptionKey BindingEntry → Table SubscriptionKey BindingEntry
unfolding upsert_all remove_all extract_binding_data
switch_binds msg t =
    if msg.function_set == "NodeManagementBindingData"
    then if is_snapshot msg
      then upsert_all entry_key (new_binding msg) (extract_binding_data msg.spine_payload) t
      else t
    else if msg.function_set == "NodeManagementBindingRequestCall"
    then if is_call msg
      then upsert_all entry_key (new_binding msg) (extract_binding_data msg.spine_payload) t
      else t
    else if msg.function_set == "NodeManagementBindingDeleteCall"
    then if is_call msg
      then remove_all entry_key (remove_binding msg) (extract_binding_data msg.spine_payload) t
      else t
    else t

-- The loop over `subMap` that follows a notify.
unfoldable pub see_subs :
    Message → Table SubscriptionKey SubscriptionEntry → Table SubscriptionKey SubscriptionEntry
unfolding see_notify
see_subs msg t =
    if msg.cmd_classifier == "notify" && not (msg.function_set == "")
    then see_all (see_notify msg) t
    else t

-- One message of the walk.
abbrev pub track_message : Message → Tracker → Tracker
unfolding switch_subs switch_binds see_subs
track_message msg t = record {
  subs = see_subs msg (switch_subs msg t.subs);
  binds = switch_binds msg t.binds;
}

unfoldable pub track_loop : List Message → Tracker → Tracker
unfolding track_message
track_loop [] t = t
track_loop (m ∷ ms) t = track_loop ms (track_message m t)

-- The greatest `time.Duration`, at which `Sub` saturates.
abbrev pub max_duration : ℕ
max_duration = 2 ^ 63 - 1

-- `lastTimestamp.Sub(since) > stalenessThreshold`, where the threshold is positive: a difference below
-- zero is then no greater.
abbrev pub older_than : ℕ → ℕ → ℕ → Bool
older_than threshold last since = ltb threshold (min (last - since) max_duration)

abbrev pub mark_stale : ℤ → ℕ → SubscriptionEntry → SubscriptionEntry
mark_stale threshold last s = record s {
  stale = elim threshold [
    | negsuc n ↦ s.stale
    | pos n ↦
        if s.active && ltb 0 n
        then elim s.last_notify_at [
          | none ↦ if older_than n last s.created_at then true else s.stale
          | some at ↦ if older_than n last at then true else s.stale
        ]
        else s.stale
  ];
}

-- The timestamp of the last message, or the zero time.
abbrev pub last_timestamp : List Message → ℕ
last_timestamp [] = 0
last_timestamp (m ∷ []) = m.timestamp
last_timestamp (m ∷ n ∷ ms) = last_timestamp (n ∷ ms)

-- `SubscriptionBindingResult`
pub record SubscriptionBindingResult : Type 0 where
  pub subscriptions : List SubscriptionEntry
  pub bindings : List BindingEntry

abbrev pub empty_tracker : Tracker
empty_tracker = record { subs = no_entries; binds = no_entries }

-- The part of `TrackSubscriptionsAndBindings` behind the walk.
unfoldable pub make_result : ℤ → ℕ → Tracker → Option SubscriptionBindingResult
unfolding collect
make_result threshold last t =
    elim (collect (mark_stale threshold last) t.subs.order t.subs.entries) [
      | none ↦ none
      | some subscriptions ↦ elim (collect (λ b. b) t.binds.order t.binds.entries) [
        | none ↦ none
        | some bindings ↦ some (record { subscriptions = subscriptions; bindings = bindings })
      ]
    ]

-- `TrackSubscriptionsAndBindings`
unfoldable pub track_subscriptions_and_bindings :
    List Message → ℤ → Option SubscriptionBindingResult
unfolding track_loop make_result
track_subscriptions_and_bindings msgs threshold =
    make_result threshold (last_timestamp msgs) (track_loop msgs empty_tracker)
