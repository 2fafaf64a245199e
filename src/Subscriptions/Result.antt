-- ===== src/Subscriptions/Result.antt =====
-- The result of the tracker (internal/analysis/subscriptions.go) is total and faithful to the messages.
use eebus_tracer.Prelude.{
  ◌≡◌, refl, Bool, List, [], ◌∷◌, none, some, map, ◌==◌, string_eq, pair_eq, if◌then◌else◌, if_both,
  Succeeds, Succeeds-elim, arith,
}
use eebus_tracer.Prelude.Int.{ℤ}
use eebus_tracer.Model.{Message}
use eebus_tracer.Subscriptions.{
  SubscriptionKey, entry_key, SubscriptionEntry, BindingEntry, Tracker, empty_tracker,
  new_subscription, new_binding, remove_subscription, remove_binding, is_snapshot, is_call,
  see_notify, switch_subs, switch_binds, see_subs, track_message, track_loop, mark_stale,
  last_timestamp, make_result, SubscriptionBindingResult, track_subscriptions_and_bindings,
}
use eebus_tracer.Subscriptions.Payload.{extract_subscription_data, extract_binding_data}
use eebus_tracer.Subscriptions.Tables.{
  Table, upsert_all, remove_all, collect, Consistent, no_entries-Consistent, upsert_all-Consistent,
  remove_all-Consistent, see_all-Consistent, Distinct,
}
use eebus_tracer.Subscriptions.Tables.Lookup.{entry_with, Consistent-Reflects, Reflects}
use eebus_tracer.Subscriptions.Timeline.{sub_key, history, history-track_loop}

abbrev bind_key : BindingEntry → SubscriptionKey
bind_key b = entry_key b.data_of

-- The three cases of a switch, each with its guard.
three_cases :
    {A : Type 0} (P : A → Type 0) (x y z : A)
    (data_case snapshot request_case call delete_case : Bool)
    → P x
    → P y
    → P z
    → P (
        if data_case
        then if snapshot then x else z
        else if request_case
        then if call then x else z
        else if delete_case
        then if call then y else z
        else z)
three_cases P x y z a b c d e p q r =
    if_both P a _ _ (if_both P b _ _ p r)
      (if_both P c _ _ (if_both P d _ _ p r) (if_both P e _ _ (if_both P d _ _ q r) r))

switch_subs-Consistent :
    (msg : Message) (t : Table SubscriptionKey SubscriptionEntry)
    → Consistent sub_key t
    → Consistent sub_key (switch_subs msg t)
unfolding switch_subs
switch_subs-Consistent msg t c =
    let P = Consistent sub_key in
    let upserted : P (
        upsert_all entry_key (new_subscription msg) (extract_subscription_data msg.spine_payload)
          t) =
      upsert_all-Consistent sub_key entry_key (new_subscription msg)
        (extract_subscription_data msg.spine_payload) t (λ d. refl) c in
    let removed : P (
        remove_all entry_key (remove_subscription msg) (extract_subscription_data msg.spine_payload)
          t) =
      remove_all-Consistent sub_key entry_key (remove_subscription msg)
        (extract_subscription_data msg.spine_payload) t (λ v. refl) c in
    three_cases P _ _ _ (msg.function_set == "NodeManagementSubscriptionData") (is_snapshot msg)
      (msg.function_set == "NodeManagementSubscriptionRequestCall") (is_call msg)
      (msg.function_set == "NodeManagementSubscriptionDeleteCall") upserted removed c

see_subs-Consistent :
    (msg : Message) (t : Table SubscriptionKey SubscriptionEntry)
    → Consistent sub_key t
    → Consistent sub_key (see_subs msg t)
unfolding see_subs see_notify
see_subs-Consistent msg t c =
    if_both (Consistent sub_key) _ _ _
      (see_all-Consistent sub_key (see_notify msg) t (λ k s. ground arith) c) c

switch_binds-Consistent :
    (msg : Message) (t : Table SubscriptionKey BindingEntry)
    → Consistent bind_key t
    → Consistent bind_key (switch_binds msg t)
unfolding switch_binds
switch_binds-Consistent msg t c =
    let P = Consistent bind_key in
    let upserted : P
        (upsert_all entry_key (new_binding msg) (extract_binding_data msg.spine_payload) t) =
      upsert_all-Consistent bind_key entry_key (new_binding msg)
        (extract_binding_data msg.spine_payload) t (λ d. refl) c in
    let removed : P
        (remove_all entry_key (remove_binding msg) (extract_binding_data msg.spine_payload) t) =
      remove_all-Consistent bind_key entry_key (remove_binding msg)
        (extract_binding_data msg.spine_payload) t (λ v. refl) c in
    three_cases P _ _ _ (msg.function_set == "NodeManagementBindingData") (is_snapshot msg)
      (msg.function_set == "NodeManagementBindingRequestCall") (is_call msg)
      (msg.function_set == "NodeManagementBindingDeleteCall") upserted removed c

track_loop-Consistent :
    (msgs : List Message) (t : Tracker)
    → Consistent sub_key t.subs × Consistent bind_key t.binds
    → Consistent sub_key (track_loop msgs t).subs × Consistent bind_key (track_loop msgs t).binds
unfolding track_loop
track_loop-Consistent [] t c = c
track_loop-Consistent (msg ∷ msgs) t c = track_loop-Consistent msgs (track_message msg t) (
  see_subs-Consistent msg _ (switch_subs-Consistent msg t.subs c.0),
  switch_binds-Consistent msg t.binds c.1,
)

-- What the result promises: no two entries have one key, and the entry of each key is its history
-- over the messages, with its staleness at the end.
pub record Faithful (msgs : List Message) (threshold : ℤ) (r : SubscriptionBindingResult)
    : Type 0 where
  pub subscriptions_distinct : Distinct (map sub_key r.subscriptions)
  pub bindings_distinct : Distinct (map bind_key r.bindings)
  pub subscription_is_history :
      (k : SubscriptionKey)
      → entry_with sub_key k r.subscriptions ≡ elim (history k msgs none) [
        | none ↦ none
        | some s ↦ some (mark_stale threshold (last_timestamp msgs) s)
      ]

-- For all messages and every threshold the tracker returns a result (no key of a slice is missing in
-- its map), no two subscriptions and no two bindings in it have one key, and the subscription of each
-- key is the history of this key alone over the messages, with its staleness at the end.
pub track_subscriptions_and_bindings-Faithful :
    (msgs : List Message) (threshold : ℤ)
    → Succeeds (Faithful msgs threshold) (track_subscriptions_and_bindings msgs threshold)
unfolding track_subscriptions_and_bindings make_result
track_subscriptions_and_bindings-Faithful msgs threshold =
    let c =
      track_loop-Consistent msgs empty_tracker
        (no_entries-Consistent sub_key, no_entries-Consistent bind_key) in
    let last = mark_stale threshold (last_timestamp msgs) in
    let t = track_loop msgs empty_tracker in
    Succeeds-elim (Reflects sub_key sub_key last t.subs) (Faithful msgs threshold)
      (collect last t.subs.order t.subs.entries) _
      (Consistent-Reflects sub_key sub_key last t.subs (λ s. refl) c.0)
      (λ subs x.
        Succeeds-elim (Reflects bind_key bind_key (λ b. b) t.binds) (Faithful msgs threshold)
          (collect (λ b. b) t.binds.order t.binds.entries) _
          (Consistent-Reflects bind_key bind_key (λ b. b) t.binds (λ b. refl) c.1)
          (λ binds y. record {
            subscriptions_distinct = x.0;
            bindings_distinct = y.0;
            subscription_is_history =
                λ k. ground (arith, x.1 k, history-track_loop k msgs empty_tracker);
          }))
