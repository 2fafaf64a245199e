-- ===== src/Parser/Building.antt =====
-- What the builder of messages gives (internal/parser/dltbin.go: `BuildMessageFromJSON`), and that it
-- reads from a text what the parser of live traffic reads (internal/parser/parser.go: `Parse`).
use eebus_tracer.Prelude.{
  ℕ, ◌≡◌, ◌≢◌, refl, String, true, false, List, [], ◌∷◌, Option, none, ◌⊎◌, inl, inr, nat_eq,
  string_eq, arith, option_elim, is_some,
}
use eebus_tracer.Model.Payload.{Json}
use eebus_tracer.Model.{Direction, ShipMsgType, Message}
use eebus_tracer.Parser.Library.{Decoders}
use eebus_tracer.Parser.Spine.{SpineResult}
use eebus_tracer.Parser.Ship.{ShipClassification, classify_ship_message}
use eebus_tracer.Parser.{
  parse, parse_frame, parse_classified, parse_payload, fill_from_spine, zero_message, hex_encode,
  trim_right_nul, is_eebus_format,
}
use eebus_tracer.Parser.Messages.{
  ShipParseResult, build_message_from_json, fill_from_ship, fill_peer, parse_spine_from_json,
  spine_of, parse_ship_from_json, not_parsed, blank_message,
}

-- A message `m` that is built for a sequence number, a time and a direction, before the names of the
-- devices are completed.
pub record IsFilled (seq_num ts : ℕ) (dir : Direction) (m : Message) : Type 0 where
  pub seq_num_kept : m.sequence_num ≡ seq_num
  pub timestamp_kept : m.timestamp ≡ ts
  pub direction_kept : m.direction ≡ dir
  pub read_or_error : (m.spine_payload ≡ none) ⊎ (m.parse_error ≡ "")
  pub data_read :
      m.ship_msg_type ≡ ShipMsgType.data_msg
      → (is_some m.spine_payload ≡ true) ⊎ (m.parse_error ≡ not_parsed)

-- Such a message whose devices are named, if the peer is.
pub record IsBuilt (seq_num ts : ℕ) (dir : Direction) (peer : String) (m : Message) : Type 0 where
  pub filled : IsFilled seq_num ts dir m
  pub dest_named : dir ≡ Direction.outgoing → m.device_dest ≡ "" → peer ≡ ""
  pub source_named : dir ≡ Direction.incoming → m.device_source ≡ "" → peer ≡ ""

fill_peer-IsBuilt :
    (seq_num ts : ℕ) (dir : Direction) (peer : String) (m : Message)
    → IsFilled seq_num ts dir m
    → IsBuilt seq_num ts dir peer (fill_peer dir peer m)
unfolding fill_peer
fill_peer-IsBuilt seq_num ts Direction.outgoing peer m h =
    ground (arith, string_eq.equals_iff m.device_dest "")
fill_peer-IsBuilt seq_num ts Direction.incoming peer m h =
    ground (arith, string_eq.equals_iff m.device_source "")
fill_peer-IsBuilt seq_num ts Direction.unknown peer m h = ground arith

-- The fields of a message that its text decides.
abbrev pub spine_part : Message → Option Json × List String
spine_part m = (
  m.spine_payload,
  m.cmd_classifier ∷ m.function_set ∷ m.msg_counter ∷ m.msg_counter_ref ∷ m.device_source
      ∷ m.device_dest ∷ m.entity_source ∷ m.entity_dest ∷ m.feature_source ∷ m.feature_dest ∷ [],
)

abbrev pub decoded : Message → ShipMsgType × Option Json × (Option Json × List String)
decoded m = (m.ship_msg_type, m.ship_payload, spine_part m)

module _ (lib : Decoders) where
  fill_from_spine-IsFilled :
      (bytes : List ℕ) (seq_num ts : ℕ) (dir : Direction) (s : SpineResult)
      → IsFilled seq_num ts dir (fill_from_spine (blank_message lib bytes seq_num ts dir) s)
  unfolding fill_from_spine
  fill_from_spine-IsFilled bytes seq_num ts dir s = ground arith

  fill_from_ship-IsFilled :
      (bytes : List ℕ) (seq_num ts : ℕ) (dir : Direction) (r : String ⊎ ShipParseResult)
      → IsFilled seq_num ts dir (fill_from_ship (blank_message lib bytes seq_num ts dir) r)
  unfolding fill_from_ship
  fill_from_ship-IsFilled bytes seq_num ts dir (inl e) = ground arith
  fill_from_ship-IsFilled bytes seq_num ts dir (inr r) = ground arith

  pub build_message_from_json-IsBuilt :
      (bytes : List ℕ) (seq_num ts : ℕ) (dir : Direction) (peer : String)
      → IsBuilt seq_num ts dir peer (build_message_from_json lib bytes seq_num ts dir peer)
  unfolding build_message_from_json
  build_message_from_json-IsBuilt bytes seq_num ts dir peer =
      fill_peer-IsBuilt seq_num ts dir peer _ (
        option_elim (IsFilled seq_num ts dir) (parse_spine_from_json lib bytes) _ _
          (λ e. fill_from_ship-IsFilled bytes seq_num ts dir (parse_ship_from_json lib bytes))
          (λ s e. fill_from_spine-IsFilled bytes seq_num ts dir s))

  -- The message that `Parse` classifies, for plain JSON.
  abbrev framed : ℕ → ℕ → List ℕ → ℕ → ℕ → ℕ → Message
  framed header b rest trace_id seq_num ts = record zero_message {
    trace_id = trace_id;
    sequence_num = seq_num;
    timestamp = ts;
    raw_bytes = header ∷ b ∷ rest;
    raw_hex = hex_encode (header ∷ b ∷ rest);
    normalized_json = lib.read_json (b ∷ rest);
  }

  parse_classified-fill_from_ship :
      (m n : Message) (c : ShipClassification)
      → spine_part m ≡ spine_part n
      → decoded (parse_classified lib m (inr c))
        ≡ decoded (
            fill_from_ship n (
              inr (record {
                ship_msg_type = c.msg_type;
                ship_payload = c.ship_payload;
                spine = spine_of lib c;
              })))
  unfolding parse_classified parse_payload fill_from_ship spine_of fill_from_spine
  parse_classified-fill_from_ship m n c h = ground arith

  -- `Parse` of plain JSON behind a header byte.
  parse-plain :
      (header b : ℕ) (rest : List ℕ) (trace_id seq_num ts : ℕ)
      → header ≢ 0
      → trim_right_nul (b ∷ rest) ≡ b ∷ rest
      → is_eebus_format (b ∷ rest) ≡ false
      → parse lib (header ∷ b ∷ rest) trace_id seq_num ts
        ≡ parse_classified lib
            (framed header b rest trace_id seq_num ts)
            (classify_ship_message lib (b ∷ rest))
  unfolding parse parse_frame
  parse-plain header b rest trace_id seq_num ts hh t f = ground (arith, t, f)

  build-plain :
      (bytes : List ℕ) (c : ShipClassification) (seq_num ts : ℕ) (peer : String)
      → parse_spine_from_json lib bytes ≡ none
      → classify_ship_message lib bytes ≡ inr c
      → build_message_from_json lib bytes seq_num ts Direction.unknown peer
        ≡ fill_from_ship (blank_message lib bytes seq_num ts Direction.unknown) (
            inr (record {
              ship_msg_type = c.msg_type;
              ship_payload = c.ship_payload;
              spine = spine_of lib c;
            }))
  unfolding build_message_from_json fill_peer parse_ship_from_json
  build-plain bytes c seq_num ts peer s e = ground arith

  -- A text in plain JSON that is no bare datagram and whose kind of SHIP message is recognized is read
  -- the same by `Parse`, behind the header byte of a message, as by `BuildMessageFromJSON` for an
  -- unknown direction: the type, both payloads and all SPINE fields agree.
  pub build_message_from_json-parse :
      (header b : ℕ) (rest : List ℕ) (c : ShipClassification) (trace_id seq_num ts seq_num' ts' : ℕ)
      (peer : String)
      → header ≢ 0
      → trim_right_nul (b ∷ rest) ≡ b ∷ rest
      → is_eebus_format (b ∷ rest) ≡ false
      → parse_spine_from_json lib (b ∷ rest) ≡ none
      → classify_ship_message lib (b ∷ rest) ≡ inr c
      → decoded (parse lib (header ∷ b ∷ rest) trace_id seq_num ts)
        ≡ decoded (build_message_from_json lib (b ∷ rest) seq_num' ts' Direction.unknown peer)
  build_message_from_json-parse header b rest c trace_id seq_num ts seq_num' ts' peer hh t f s e =
      rw
        (
          parse-plain header b rest trace_id seq_num ts hh t f,
          build-plain (b ∷ rest) c seq_num' ts' peer s e,
          e,
        )
        (parse_classified-fill_from_ship (framed header b rest trace_id seq_num ts)
          (blank_message lib (b ∷ rest) seq_num' ts' Direction.unknown) c refl)
