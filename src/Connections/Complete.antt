-- ===== src/Connections/Complete.antt =====
-- That the connections show all states of a trace (internal/api/connections.go).
use eebus_tracer.Prelude.{
  ◌≡◌, refl, sym, ap, ◌∙◌, String, true, ◌||◌, List, [], ◌∷◌, ◌++◌, append-nil, append_assoc,
  Option, none, some, ◌==◌, string_eq, pair_eq, if◌then◌else◌, is_some, map, Succeeds, Succeeds-map,
  option_elim, arith, Option-cases, inl, inr,
}
use eebus_tracer.Prelude.Maps.{lookup}
use eebus_tracer.Model.{Message}
use eebus_tracer.Subscriptions.Tables.{no_entries, Distinct, Consistent, no_entries-Consistent}
use eebus_tracer.Subscriptions.Tables.Lookup.{entry_with, Reflects, Consistent-Reflects}
use eebus_tracer.Connections.Either.{
  either, Exclusive, update_either-Exclusive, update_either-Consistent,
}
use eebus_tracer.Connections.View.{list_in, list_in-update_either}
use eebus_tracer.Connections.{
  StateEntry, ConnectionState, Connections, ship_msg_type_to_state, pair_of, swap, fresh, add_state,
  track_message, track_messages, with_anomalies, build_connection_states,
}

abbrev Pair : Type 0
Pair = String × String

-- The state that a message adds to the connection of two devices, in whichever order.
abbrev pub state_between : Pair → Message → List StateEntry
state_between k msg = elim (ship_msg_type_to_state msg.ship_msg_type) [
  | none ↦ []
  | some state ↦ elim (pair_of msg) [
    | none ↦ []
    | some p ↦
        if p == k || swap p == k
        then record { state = state; timestamp = msg.timestamp; message_id = msg.id } ∷ []
        else []
  ]
]

abbrev pub states_between : Pair → List Message → List StateEntry
states_between k [] = []
states_between k (msg ∷ msgs) = state_between k msg ++ states_between k msgs

-- The states of the entry for a pair or its reverse.
abbrev pub states_in : Pair → List (Pair × ConnectionState) → List StateEntry
states_in k m = list_in swap (λ c. c.states) (either swap k m)

track_message-states_in :
    (k : Pair) (msg : Message) (t : Connections)
    → Exclusive swap t.entries
    → states_in k (track_message msg t).entries ≡ states_in k t.entries ++ state_between k msg
unfolding track_message
track_message-states_in k msg t x = elim (Option-cases (ship_msg_type_to_state msg.ship_msg_type)) [
  | inl e ↦ ground (arith, e, append-nil (states_in k t.entries))
  | inr (state, e) ↦ elim (Option-cases (pair_of msg)) [
    | inl f ↦ ground (arith, e, f, append-nil (states_in k t.entries))
    | inr (p, f) ↦
        let entry : StateEntry = record {
          state = state;
          timestamp = msg.timestamp;
          message_id = msg.id;
        } in
        let between : state_between k msg ≡ (if p == k || swap p == k then entry ∷ [] else []) =
          ground (arith, e, f) in
        rw (e, f, track_message)
          (list_in-update_either swap (λ c. c.states) (λ q. refl) p k (fresh p)
              (add_state state msg) (entry ∷ []) t x refl (λ c. refl)
            ∙ ap (λ l. states_in k t.entries ++ l) (sym between))
  ]
]

abbrev pub key_of : ConnectionState → Pair
key_of c = (c.device_source, c.device_dest)

-- What holds of the map between two messages.
record IsTracked (t : Connections) : Type 0 where
  exclusive : Exclusive swap t.entries
  consistent : Consistent key_of t

track_message-IsTracked :
    (msg : Message) (t : Connections) → IsTracked t → IsTracked (track_message msg t)
unfolding track_message
track_message-IsTracked msg t v =
    option_elim IsTracked (ship_msg_type_to_state msg.ship_msg_type) _ _ (λ e. v)
      (λ state e.
        option_elim IsTracked (pair_of msg) _ _ (λ f. v)
          (λ p f. record {
            exclusive =
                update_either-Exclusive swap (λ q. refl) p (fresh p) (add_state state msg) t
                  v.exclusive;
            consistent =
                update_either-Consistent swap key_of p (fresh p) (add_state state msg) t refl
                  (λ c. refl) v.consistent;
          }))

track_messages-IsTracked :
    (msgs : List Message) (t : Connections) → IsTracked t → IsTracked (track_messages msgs t)
unfolding track_messages
track_messages-IsTracked [] t v = v
track_messages-IsTracked (msg ∷ msgs) t v =
    track_messages-IsTracked msgs (track_message msg t) (track_message-IsTracked msg t v)

track_messages-states_in :
    (k : Pair) (msgs : List Message) (t : Connections)
    → IsTracked t
    → states_in k (track_messages msgs t).entries ≡ states_in k t.entries ++ states_between k msgs
unfolding track_messages
track_messages-states_in k [] t v = sym (append-nil (states_in k t.entries))
track_messages-states_in k (msg ∷ msgs) t v =
    track_messages-states_in k msgs (track_message msg t) (track_message-IsTracked msg t v)
    ∙ ap (λ l. l ++ states_between k msgs) (track_message-states_in k msg t v.exclusive)
    ∙ append_assoc (states_in k t.entries) (state_between k msg) (states_between k msgs)

no_entries-IsTracked : IsTracked no_entries
unfolding lookup
no_entries-IsTracked = record {
  exclusive = λ k a b. absurd (cc);
  consistent = no_entries-Consistent key_of;
}

-- The states of the connections for a pair or its reverse.
abbrev pub states_shown : Pair → List ConnectionState → List StateEntry
states_shown k found =
    list_in swap (λ c. c.states)
      (elim (entry_with key_of k found) [
        | some c ↦ some c
        | none ↦ entry_with key_of (swap k) found
      ])

-- Each pair stands once and not beside its reverse, and shows the states of all its messages.
abbrev pub IsComplete : List Message → List ConnectionState → Type 0
IsComplete msgs found =
    Distinct (map key_of found)
    × ((k : Pair)
        → is_some (entry_with key_of k found) ≡ true
        → is_some (entry_with key_of (swap k) found) ≡ true
        → swap k ≡ k)
    × ((k : Pair) → states_shown k found ≡ states_between k msgs)

-- What is shown of two entries that the map has or lacks.
shown_of :
    (a b a' b' : Option ConnectionState)
    → a' ≡ elim a [ none ↦ none | some c ↦ some (with_anomalies c) ]
    → b' ≡ elim b [ none ↦ none | some c ↦ some (with_anomalies c) ]
    → list_in swap (λ c. c.states) (elim a' [ some c ↦ some c | none ↦ b' ])
      ≡ list_in swap (λ c. c.states) (elim a [ some c ↦ some c | none ↦ b ])
shown_of none none a' b' h k = rw (h, k) refl
shown_of none (some d) a' b' h k = rw (h, k) refl
shown_of (some c) b a' b' h k = rw h refl

build_from :
    (msgs : List Message) (t : Connections) (found : List ConnectionState)
    → IsTracked t
    → ((k : Pair) → states_in k t.entries ≡ states_between k msgs)
    → Reflects key_of key_of with_anomalies t found
    → IsComplete msgs found
build_from msgs t found v all r = (
  r.0,
  λ k a b. v.exclusive k (ground (arith, a, r.1 k)) (ground (arith, b, r.1 (swap k))),
  λ k.
      shown_of (lookup k t.entries) (lookup (swap k) t.entries) (entry_with key_of k found)
        (entry_with key_of (swap k) found) (r.1 k) (r.1 (swap k))
      ∙ all k,
)

-- For all messages in their order there is a list of connections, in which no pair of devices stands
-- twice, in whichever order, and a pair's states are those of all messages between the two, in both
-- directions, in the order of the messages.
pub build_connection_states-IsComplete :
    (msgs : List Message) → Succeeds (IsComplete msgs) (build_connection_states msgs)
unfolding build_connection_states
build_connection_states-IsComplete msgs =
    let t = track_messages msgs no_entries in
    let v = track_messages-IsTracked msgs no_entries no_entries-IsTracked in
    Succeeds-map (Reflects key_of key_of with_anomalies t) (IsComplete msgs) _
      (Consistent-Reflects key_of key_of with_anomalies t (λ c. refl) v.consistent)
      (λ found.
        build_from msgs t found v
          (λ k. track_messages-states_in k msgs no_entries no_entries-IsTracked))
