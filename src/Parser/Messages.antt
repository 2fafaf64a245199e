-- ===== src/Parser/Messages.antt =====
-- Messages from JSON without the framing of a connection (internal/parser/parser.go:
-- `ParseShipFromJSON`, `ParseSpineFromJSON`; internal/parser/dltbin.go: `BuildMessageFromJSON`).
use eebus_tracer.Prelude.{
  ℕ, String, Bool, true, false, ◌&&◌, List, Option, none, some, ◌⊎◌, inl, inr, ◌==◌, string_eq,
  if◌then◌else◌,
}
use eebus_tracer.Model.Payload.{Json, find}
use eebus_tracer.Model.Object.{read_map}
use eebus_tracer.Model.{Direction, ShipMsgType, Message}
use eebus_tracer.Parser.Library.{Decoders}
use eebus_tracer.Parser.Spine.{SpineResult, parse_spine_datagram}
use eebus_tracer.Parser.Ship.{ShipClassification, classify_ship_message}
use eebus_tracer.Parser.{fill_from_spine, zero_message, is_data}

-- `ShipParseResult`
pub record ShipParseResult : Type 0 where
  pub ship_msg_type : ShipMsgType
  pub ship_payload : Json
  pub spine : Option SpineResult

abbrev pub result_of : String ⊎ SpineResult → Option SpineResult
result_of (inl e) = none
result_of (inr s) = some s

abbrev pub is_outgoing : Direction → Bool
is_outgoing Direction.outgoing = true
is_outgoing _ = false

abbrev pub is_incoming : Direction → Bool
is_incoming Direction.incoming = true
is_incoming _ = false

-- The device addresses that a message lacks are filled in at the end of `BuildMessageFromJSON`.
unfoldable pub fill_peer : Direction → String → Message → Message
fill_peer dir peer msg =
    if is_outgoing dir && msg.device_dest == ""
    then record msg { device_dest = peer }
    else if is_incoming dir && msg.device_source == ""
    then record msg { device_source = peer }
    else msg

abbrev pub not_parsed : String
not_parsed = "could not parse SPINE datagram from log line"

-- What `BuildMessageFromJSON` makes of the result of `ParseShipFromJSON`.
unfoldable pub fill_from_ship : Message → String ⊎ ShipParseResult → Message
unfolding fill_from_spine
fill_from_ship msg (inl e) = record msg { parse_error = not_parsed }
fill_from_ship msg (inr r) =
    let m = record msg { ship_msg_type = r.ship_msg_type; ship_payload = some r.ship_payload } in
    elim r.spine [
      | some s ↦ fill_from_spine m s
      | none ↦ if is_data r.ship_msg_type then record m { parse_error = not_parsed } else m
    ]

module _ (lib : Decoders) where
  -- `json.Unmarshal` of a text into a map, with the text's value.
  abbrev pub datagram_in : List ℕ → Option Json
  unfolding find
  datagram_in bytes = elim (lib.read_json bytes) [
    | none ↦ none
    | some j ↦ elim (read_map j) [
      | none ↦ none
      | some raw ↦ elim (find "datagram" raw) [ none ↦ none | some dg ↦ some j ]
    ]
  ]

  -- `ParseSpineFromJSON`
  unfoldable pub parse_spine_from_json : List ℕ → Option SpineResult
  unfolding find parse_spine_datagram
  parse_spine_from_json bytes = elim (datagram_in bytes) [
    | none ↦ none
    | some j ↦ result_of (parse_spine_datagram lib (some j))
  ]

  -- The SPINE part of a classified message.
  unfoldable pub spine_of : ShipClassification → Option SpineResult
  unfolding parse_spine_datagram
  spine_of c =
      if is_data c.msg_type
      then elim c.data_payload [
        | none ↦ none
        | some p ↦ result_of (parse_spine_datagram lib (some p))
      ]
      else none

  -- `ParseShipFromJSON`
  unfoldable pub parse_ship_from_json : List ℕ → String ⊎ ShipParseResult
  unfolding classify_ship_message spine_of
  parse_ship_from_json bytes = elim (classify_ship_message lib bytes) [
    | inl e ↦ inl e
    | inr c ↦
        inr
          (record { ship_msg_type = c.msg_type; ship_payload = c.ship_payload; spine = spine_of c })
  ]

  -- The message that `BuildMessageFromJSON` starts from.
  abbrev pub blank_message : List ℕ → ℕ → ℕ → Direction → Message
  blank_message normalized seq_num ts dir = record zero_message {
    sequence_num = seq_num;
    timestamp = ts;
    direction = dir;
    normalized_json = lib.read_json normalized;
    ship_msg_type = ShipMsgType.data_msg;
  }

  -- `BuildMessageFromJSON`
  unfoldable pub build_message_from_json : List ℕ → ℕ → ℕ → Direction → String → Message
  unfolding parse_spine_from_json parse_ship_from_json fill_from_spine fill_from_ship fill_peer
  build_message_from_json normalized seq_num ts dir peer_device =
      let msg = blank_message normalized seq_num ts dir in
      let filled : Message = elim (parse_spine_from_json normalized) [
        | some s ↦ fill_from_spine msg s
        | none ↦ fill_from_ship msg (parse_ship_from_json normalized)
      ] in
      fill_peer dir peer_device filled
