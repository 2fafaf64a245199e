-- ===== src/Connections.antt =====
-- The SHIP connections between the devices of a trace (internal/api/connections.go).
pub mod Either
pub mod View
pub mod Complete
pub mod Order
use eebus_tracer.Prelude.{
  ℕ, String, Bool, true, false, not, ◌&&◌, ◌||◌, List, [], ◌∷◌, ◌++◌, Option, none, some, ◌==◌,
  nat_eq, string_eq, pair_eq, if◌then◌else◌, any, map,
}
use eebus_tracer.Model.{ShipMsgType, Message}
use eebus_tracer.Subscriptions.Tables.{Table, no_entries, collect}
use eebus_tracer.Connections.Either.{update_either}

-- The states that the source names by texts.
pub data State : Type 0 where
  init hello handshake pin access data_exchange closed : State

-- The place of a state among those that are expected, in which a closed connection has none.
abbrev pub rank : State → ℕ
rank State.init = 0
rank State.hello = 1
rank State.handshake = 2
rank State.pin = 3
rank State.access = 4
rank State.data_exchange = 5
rank State.closed = 6

abbrev pub same_state : State → State → Bool
same_state a b = rank a == rank b

-- `StateEntry`
pub record StateEntry : Type 0 where
  pub state : State
  pub timestamp : ℕ
  pub message_id : ℕ

-- The anomalies that the source reports.
pub data Anomaly : Type 0 where
  missing_hello closed_before_data out_of_order : Anomaly

-- `ConnectionState`; `current_state` is `none` for the empty text.
pub record ConnectionState : Type 0 where
  pub device_source : String
  pub device_dest : String
  pub states : List StateEntry
  pub current_state : Option State
  pub anomalies : List Anomaly

-- `shipMsgTypeToState`; `none` for the empty text.
unfoldable pub ship_msg_type_to_state : ShipMsgType → Option State
ship_msg_type_to_state ShipMsgType.init = some State.init
ship_msg_type_to_state ShipMsgType.connection_hello = some State.hello
ship_msg_type_to_state ShipMsgType.protocol_handshake = some State.handshake
ship_msg_type_to_state ShipMsgType.connection_pin_state = some State.pin
ship_msg_type_to_state ShipMsgType.access_methods = some State.access
ship_msg_type_to_state ShipMsgType.data_msg = some State.data_exchange
ship_msg_type_to_state ShipMsgType.connection_close = some State.closed
ship_msg_type_to_state ShipMsgType.unknown = none
ship_msg_type_to_state ShipMsgType.unset = none

-- The pair of a message: of the devices, or of the network addresses where it names no device.
unfoldable pub pair_of : Message → Option (String × String)
pair_of msg =
    let by_address = msg.device_source == "" && msg.device_dest == "" in
    let src = if by_address then msg.source_addr else msg.device_source in
    let dst = if by_address then msg.dest_addr else msg.device_dest in
    if src == "" || dst == "" then none else some (src, dst)

abbrev pub swap : String × String → String × String
swap (a, b) = (b, a)

-- A connection before its first state, and with one state more.
abbrev pub fresh : String × String → ConnectionState
fresh (src, dst) = record {
  device_source = src;
  device_dest = dst;
  states = [];
  current_state = none;
  anomalies = [];
}

abbrev pub add_state : State → Message → ConnectionState → ConnectionState
add_state state msg c = record c {
  states =
      c.states ++ record { state = state; timestamp = msg.timestamp; message_id = msg.id } ∷ [];
  current_state = some state;
}

abbrev pub Connections : Type 0
Connections = Table (String × String) ConnectionState

-- The body of the loop over the messages.
unfoldable pub track_message : Message → Connections → Connections
unfolding ship_msg_type_to_state pair_of
track_message msg t = elim (ship_msg_type_to_state msg.ship_msg_type) [
  | none ↦ t
  | some state ↦ elim (pair_of msg) [
    | none ↦ t
    | some key ↦ update_either swap key (fresh key) (add_state state msg) t
  ]
]

unfoldable pub track_messages : List Message → Connections → Connections
unfolding track_message
track_messages [] t = t
track_messages (msg ∷ msgs) t = track_messages msgs (track_message msg t)

abbrev pub has_state : State → List StateEntry → Bool
has_state s states = any (λ e. same_state e.state s) states

abbrev pub ends_closed : List StateEntry → Bool
ends_closed [] = false
ends_closed (e ∷ []) = same_state e.state State.closed
ends_closed (e ∷ f ∷ states) = ends_closed (f ∷ states)

abbrev pub expected : List State
expected =
    State.init ∷ State.hello ∷ State.handshake ∷ State.pin ∷ State.access ∷ State.data_exchange ∷ []

-- The inner loop: what is left of the expected states from the given one on.
unfoldable pub seek : State → List State → List State
seek s [] = []
seek s (x ∷ xs) = elim (same_state x s) [ true ↦ x ∷ xs | false ↦ seek s xs ]

-- The loop that looks for a state out of order.
unfoldable pub is_disordered : List StateEntry → List State → Bool
unfolding seek
is_disordered [] left = false
is_disordered (e ∷ states) left = elim (same_state e.state State.closed) [
  | true ↦ is_disordered states left
  | false ↦ elim (seek e.state left) [ [] ↦ true | x ∷ xs ↦ is_disordered states (x ∷ xs) ]
]

-- `detectAnomalies`
unfoldable pub detect_anomalies : List StateEntry → List Anomaly
unfolding is_disordered
detect_anomalies states =
    (if has_state State.init states && not (has_state State.hello states)
      then Anomaly.missing_hello ∷ []
      else [])
    ++ ((if ends_closed states && not (has_state State.data_exchange states)
          then Anomaly.closed_before_data ∷ []
          else [])
        ++ (if is_disordered states expected then Anomaly.out_of_order ∷ [] else []))

abbrev pub with_anomalies : ConnectionState → ConnectionState
with_anomalies c = record c { anomalies = detect_anomalies c.states }

-- `buildConnectionStates`; `none` is the panic on a key that is not in the map.
unfoldable pub build_connection_states : List Message → Option (List ConnectionState)
unfolding track_messages collect
build_connection_states msgs =
    let t = track_messages msgs no_entries in collect with_anomalies t.order t.entries
