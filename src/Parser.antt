-- ===== src/Parser.antt =====
-- From raw bytes to messages (internal/parser/parser.go: `Parse`, internal/parser/normalize.go, and
-- `FillFromSpine` of internal/parser/dltbin.go). What ship-go and spine-go decode is the parameter
-- `Decoders`.
pub mod Library
pub mod Fixup
pub mod Spine
pub mod Ship
pub mod Messages
pub mod Repair
pub mod Idempotent
pub mod Commands
pub mod Building
pub mod Addresses
pub mod Properties
use Prim.Native.String.{◌++◌ as append}
use eebus_tracer.Prelude.{
  ℕ, zero, suc, ◌+◌, ◌/◌, ◌%◌, String, Bool, true, false, not, ◌&&◌, List, [], ◌∷◌, Option, none,
  some, ◌⊎◌, inl, inr, ◌==◌, nat_eq, string_eq, if◌then◌else◌, ltb,
}
use eebus_tracer.Model.Payload.{Json}
use eebus_tracer.Parser.Library.{Decoders}
use eebus_tracer.Parser.Spine.{SpineResult, parse_spine_datagram}
use eebus_tracer.Parser.Ship.{ShipClassification, classify_ship_message}
use eebus_tracer.Model.{Direction, incoming, outgoing, ShipMsgType, Message}

-- `hex.EncodeToString`
abbrev pub hex_digit : ℕ → ℕ
hex_digit n = if ltb n 10 then n + 48 else n + 87

unfoldable pub hex_encode : List ℕ → List ℕ
hex_encode [] = []
hex_encode (b ∷ bs) = hex_digit (b / 16) ∷ hex_digit (b % 16) ∷ hex_encode bs

-- A message with every field at its zero value.
abbrev pub zero_message : Message
zero_message = record {
  id = 0;
  trace_id = 0;
  sequence_num = 0;
  timestamp = 0;
  direction = Direction.unknown;
  source_addr = "";
  dest_addr = "";
  raw_bytes = [];
  raw_hex = [];
  normalized_json = none;
  ship_msg_type = ShipMsgType.unset;
  ship_payload = none;
  spine_payload = none;
  cmd_classifier = "";
  function_set = "";
  msg_counter = "";
  msg_counter_ref = "";
  device_source = "";
  device_dest = "";
  entity_source = "";
  entity_dest = "";
  feature_source = "";
  feature_dest = "";
  parse_error = "";
}

-- `FillFromSpine`
unfoldable pub fill_from_spine : Message → SpineResult → Message
fill_from_spine msg s = record msg {
  spine_payload = some s.spine_payload;
  cmd_classifier = s.cmd_classifier;
  function_set = s.function_set;
  msg_counter = s.msg_counter;
  msg_counter_ref = s.msg_counter_ref;
  device_source = s.device_source;
  device_dest = s.device_dest;
  entity_source = s.entity_source;
  entity_dest = s.entity_dest;
  feature_source = s.feature_source;
  feature_dest = s.feature_dest;
}

-- `ShipMsgTypeFromHeaderByte`
unfoldable pub ship_msg_type_from_header_byte : ℕ → ShipMsgType
ship_msg_type_from_header_byte b = if b == 0 then ShipMsgType.init else ShipMsgType.unknown

-- `bytes.TrimRight(b, "\x00")`
unfoldable pub trim_right_nul : List ℕ → List ℕ
trim_right_nul [] = []
trim_right_nul (c ∷ b) = elim (trim_right_nul b) [
  | [] ↦ if c == 0 then [] else c ∷ []
  | x ∷ r ↦ c ∷ x ∷ r
]

-- `len(jsonData) > 1 && jsonData[0] == '[' && jsonData[1] == '{'`
unfoldable pub is_eebus_format : List ℕ → Bool
is_eebus_format (a ∷ b ∷ rest) = a == b'[' && b == b'{'
is_eebus_format _ = false

abbrev pub is_data : ShipMsgType → Bool
is_data ShipMsgType.data_msg = true
is_data _ = false

module _ (lib : Decoders) where
  -- `NormalizeEEBUSJSON`
  unfoldable pub normalize_eebus_json : List ℕ → List ℕ
  unfolding trim_right_nul
  normalize_eebus_json bytes = elim (trim_right_nul bytes) [
    | [] ↦ []
    | b ∷ rest ↦ lib.json_from_eebus_json (b ∷ rest)
  ]

  -- The last part of `Parse`, for a data message with a payload.
  unfoldable pub parse_payload : Message → Option Json → Message
  unfolding fill_from_spine parse_spine_datagram
  parse_payload msg none = msg
  parse_payload msg (some payload) = elim (parse_spine_datagram lib (some payload)) [
    | inl e ↦ record msg { parse_error = append "SPINE parsing: " e }
    | inr s ↦ fill_from_spine msg s
  ]

  unfoldable pub parse_classified : Message → String ⊎ ShipClassification → Message
  unfolding parse_payload
  parse_classified msg (inl e) = record msg {
    ship_msg_type = ShipMsgType.unknown;
    parse_error = append "SHIP classification: " e;
  }
  parse_classified msg (inr c) =
      let m = record msg { ship_msg_type = c.msg_type; ship_payload = some c.ship_payload } in
      if is_data c.msg_type then parse_payload m c.data_payload else m

  -- `Parse`, by the first byte and the rest.
  unfoldable pub parse_frame : Message → List ℕ → Message
  unfolding parse_classified ship_msg_type_from_header_byte
  parse_frame msg [] = record msg {
    parse_error = "empty message";
    ship_msg_type = ShipMsgType.unknown;
  }
  parse_frame msg (header ∷ []) =
      if header == 0
      then record msg { ship_msg_type = ship_msg_type_from_header_byte header }
      else record msg {
        ship_msg_type = ShipMsgType.unknown;
        parse_error = "message too short for JSON payload";
      }
  parse_frame msg (header ∷ b ∷ rest) =
      let json = trim_right_nul (b ∷ rest) in
      let normalized = if is_eebus_format json then normalize_eebus_json json else json in
      if header == 0
      then record msg { ship_msg_type = ship_msg_type_from_header_byte header }
      else parse_classified (record msg { normalized_json = lib.read_json normalized })
          (classify_ship_message lib normalized)

  unfoldable pub parse : List ℕ → ℕ → ℕ → ℕ → Message
  unfolding parse_frame hex_encode
  parse raw trace_id seq_num ts =
      parse_frame
        (record zero_message {
          trace_id = trace_id;
          sequence_num = seq_num;
          timestamp = ts;
          raw_bytes = raw;
          raw_hex = hex_encode raw;
        })
        raw
