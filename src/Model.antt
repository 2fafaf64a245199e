-- ===== src/Model.antt =====
-- The records that the other parts share (internal/model/message.go, internal/model/enums.go).
pub mod Payload
pub mod Object
use eebus_tracer.Prelude.{ℕ, String, List, Option, Bool}
use eebus_tracer.Model.Payload.{Json}

-- `Direction`
pub data Direction : Type 0 where
  incoming outgoing unknown : Direction

-- `ShipMsgType`
pub data ShipMsgType : Type 0 where
  init connection_hello protocol_handshake connection_pin_state : ShipMsgType
  access_methods data_msg connection_close unknown : ShipMsgType
  unset : ShipMsgType  -- the empty string of a message that is not classified yet

-- `Message`. A timestamp is its nanoseconds since Go's zero time; a payload is the value that its
-- bytes encode, and `none` where it is empty.
pub record Message : Type 0 where
  pub id : ℕ
  pub trace_id : ℕ
  pub sequence_num : ℕ
  pub timestamp : ℕ
  pub direction : Direction
  pub source_addr : String
  pub dest_addr : String
  pub raw_bytes : List ℕ
  pub raw_hex : List ℕ
  pub normalized_json : Option Json
  pub ship_msg_type : ShipMsgType
  pub ship_payload : Option Json
  pub spine_payload : Option Json
  pub cmd_classifier : String
  pub function_set : String
  pub msg_counter : String
  pub msg_counter_ref : String
  pub device_source : String
  pub device_dest : String
  pub entity_source : String
  pub entity_dest : String
  pub feature_source : String
  pub feature_dest : String
  pub parse_error : String

-- `MessageSummary`
pub record MessageSummary : Type 0 where
  pub id : ℕ
  pub trace_id : ℕ
  pub sequence_num : ℕ
  pub timestamp : ℕ
  pub direction : Direction
  pub ship_msg_type : ShipMsgType
  pub cmd_classifier : String
  pub function_set : String
  pub msg_counter : String
  pub msg_counter_ref : String
  pub device_source : String
  pub device_dest : String
  pub source_addr : String
  pub dest_addr : String

-- `ToSummary`
unfoldable pub to_summary : Message → MessageSummary
to_summary m = record {
  id = m.id;
  trace_id = m.trace_id;
  sequence_num = m.sequence_num;
  timestamp = m.timestamp;
  direction = m.direction;
  ship_msg_type = m.ship_msg_type;
  cmd_classifier = m.cmd_classifier;
  function_set = m.function_set;
  msg_counter = m.msg_counter;
  msg_counter_ref = m.msg_counter_ref;
  device_source = m.device_source;
  device_dest = m.device_dest;
  source_addr = m.source_addr;
  dest_addr = m.dest_addr;
}
