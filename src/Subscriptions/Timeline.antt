-- ===== src/Subscriptions/Timeline.antt =====
-- The tracker (internal/analysis/subscriptions.go) seen from one subscription: what each message does
-- to the entry of a key, and the result as the history of every key.
use eebus_tracer.Prelude.{
  false, ◌≡◌, refl, ap, ◌∙◌, not, ◌&&◌, List, [], ◌∷◌, Option, none, some, ◌==◌, string_eq, pair_eq,
  if◌then◌else◌, arith,
}
use eebus_tracer.Prelude.Maps.{lookup, lookup-map_entries}
use eebus_tracer.Model.{Message}
use eebus_tracer.Subscriptions.{
  SubscriptionKey, entry_key, SubscriptionEntry, Tracker, new_subscription, remove_subscription,
  is_snapshot, is_call, see_notify, switch_subs, see_subs, track_message, track_loop,
}
use eebus_tracer.Subscriptions.Payload.{EntryData, extract_subscription_data}
use eebus_tracer.Subscriptions.Tables.{Table, last_with}
use eebus_tracer.Subscriptions.Tables.Lookup.{lookup-upsert_all, lookup-remove_all}

-- The key of an entry.
abbrev pub sub_key : SubscriptionEntry → SubscriptionKey
sub_key s = entry_key s.data_of

-- What a message says of one subscription.
pub data Event : Type 0 where
  opened : EntryData → Event
  closed : Event
  nothing : Event

abbrev pub event_of : SubscriptionKey → Message → Event
event_of k msg =
    let listed = last_with entry_key k (extract_subscription_data msg.spine_payload) in
    let opening : Event = elim listed [ none ↦ nothing | some d ↦ opened d ] in
    if msg.function_set == "NodeManagementSubscriptionData"
    then if is_snapshot msg then opening else nothing
    else if msg.function_set == "NodeManagementSubscriptionRequestCall"
    then if is_call msg then opening else nothing
    else if msg.function_set == "NodeManagementSubscriptionDeleteCall" && is_call msg
    then elim listed [ none ↦ nothing | some d ↦ closed ]
    else nothing

-- The life of one subscription: an opening starts it anew, a closing ends one that exists, and a
-- notify that matches an active one is counted after that.
abbrev pub apply_event : Message → Event → Option SubscriptionEntry → Option SubscriptionEntry
apply_event msg (opened d) s = some (new_subscription msg d)
apply_event msg closed none = none
apply_event msg closed (some s) = some (remove_subscription msg s)
apply_event msg nothing s = s

abbrev pub notified :
    SubscriptionKey → Message → Option SubscriptionEntry → Option SubscriptionEntry
unfolding see_notify
notified k msg none = none
notified k msg (some s) = some (
    if msg.cmd_classifier == "notify" && not (msg.function_set == "")
    then see_notify msg k s
    else s)

abbrev pub history :
    SubscriptionKey → List Message → Option SubscriptionEntry → Option SubscriptionEntry
history k [] s = s
history k (msg ∷ msgs) s = history k msgs (notified k msg (apply_event msg (event_of k msg) s))

module _ (k : SubscriptionKey) (msg : Message) where
  lookup-switch_subs :
      (t : Table SubscriptionKey SubscriptionEntry)
      → lookup k (switch_subs msg t).entries ≡ apply_event msg (event_of k msg) (lookup k t.entries)
  unfolding switch_subs
  lookup-switch_subs t = ground (
    arith,
    lookup-upsert_all entry_key (new_subscription msg) (extract_subscription_data msg.spine_payload)
        t k,
    lookup-remove_all entry_key (remove_subscription msg)
        (extract_subscription_data msg.spine_payload) t k (λ s. refl),
  )

  lookup-see_subs :
      (t : Table SubscriptionKey SubscriptionEntry)
      → lookup k (see_subs msg t).entries ≡ notified k msg (lookup k t.entries)
  unfolding see_subs
  lookup-see_subs t = ground (arith, lookup-map_entries (see_notify msg) k t.entries)

pub history-track_loop :
    (k : SubscriptionKey) (msgs : List Message) (t : Tracker)
    → lookup k (track_loop msgs t).subs.entries ≡ history k msgs (lookup k t.subs.entries)
unfolding track_loop
history-track_loop k [] t = refl
history-track_loop k (msg ∷ msgs) t =
    history-track_loop k msgs (track_message msg t)
    ∙ ap (history k msgs) (
        lookup-see_subs k msg (switch_subs msg t.subs)
        ∙ ap (notified k msg) (lookup-switch_subs k msg t.subs))

-- An entry that is there stays, active or not, with all that it was created and removed with; one that
-- is not a notify leaves it as it was.
abbrev pub Stays : Message → Option SubscriptionEntry → Option SubscriptionEntry → Type 0
Stays msg none o = o ≡ none
Stays msg (some s) none = ⊥
Stays msg (some s) (some r) =
    (r.data_of ≡ s.data_of)
    × (r.active ≡ s.active)
    × (r.created_at ≡ s.created_at)
    × (r.removed_at ≡ s.removed_at)
    × (r.message_id ≡ s.message_id)
    × ((msg.cmd_classifier == "notify") ≡ false → r ≡ s)
