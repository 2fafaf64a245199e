-- ===== src/Dlt/Extract.antt =====
-- EEBUS content in DLT messages (internal/parser/dlt.go: `ExtractEEBusFromDLTPayload`,
-- `looksLikeEEBusPayload`; internal/parser/dltbin.go: `DLTFrameToMessage`).
use eebus_tracer.Prelude.{
  ℕ, ◌+◌, ◌*◌, Bool, true, false, not, ◌&&◌, ◌||◌, List, [], Option, none, some, ◌==◌, nat_eq,
  list_eq, if◌then◌else◌, codes,
}
use eebus_tracer.Model.{Direction, Message}
use eebus_tracer.Parser.Library.{Decoders}
use eebus_tracer.Parser.{normalize_eebus_json}
use eebus_tracer.Parser.Messages.{build_message_from_json}
use eebus_tracer.Dlt.Frame.{DltBinaryMessage}
use eebus_tracer.Dlt.CompleteJson.{is_complete_json}
use eebus_tracer.Dlt.Patterns.{has_text, from_first, send_group, receive_group}

-- `dltTruncatedMarker`
abbrev pub dlt_truncated_marker : List ℕ
dlt_truncated_marker = codes "<<Message truncated, too long>>"

-- `eebusSHIPFramePrefix`
abbrev pub eebus_ship_frame_prefix : List ℕ
eebus_ship_frame_prefix = codes "{\"data\":[{\"header\":[{\"protocolId\":\"ee1.0\""

-- `eebusDatagramPrefix`
abbrev pub eebus_datagram_prefix : List ℕ
eebus_datagram_prefix = codes "{\"datagram\":"

-- `DLTExtractResult`
pub record DltExtractResult : Type 0 where
  pub json : List ℕ
  pub direction : Direction
  pub truncated : Bool

abbrev pub is_cem : List ℕ → List ℕ → Bool
is_cem apid ctid = apid == codes "CEM" && ctid == codes "CEM"

-- `looksLikeEEBusPayload`
unfoldable pub looks_like_eebus_payload : List ℕ → List ℕ → List ℕ → Bool
unfolding has_text
looks_like_eebus_payload apid ctid payload =
    is_cem apid ctid
      && (has_text payload (codes "[Session ") || has_text payload (codes "[ConnectionWorker "))
    || (has_text payload (codes "\"protocolId\":\"ee1.0\"")
        || has_text payload eebus_datagram_prefix)

abbrev pub found : List ℕ → Direction → Option DltExtractResult
found json dir = some (record { json = json; direction = dir; truncated = false })

-- The generic fallback.
unfoldable pub search_anywhere : List ℕ → Option DltExtractResult
unfolding from_first
search_anywhere payload = elim (from_first eebus_ship_frame_prefix payload) [
  | some json ↦ found json Direction.unknown
  | none ↦ elim (from_first eebus_datagram_prefix payload) [
    | some json ↦ found json Direction.unknown
    | none ↦ none
  ]
]

-- The two patterns of the Porsche CEM.
unfoldable pub search_cem : List ℕ → Option DltExtractResult
unfolding send_group receive_group
search_cem payload = elim (send_group payload) [
  | some json ↦ found json Direction.outgoing
  | none ↦ elim (receive_group payload) [ some json ↦ found json Direction.incoming | none ↦ none ]
]

-- `ExtractEEBusFromDLTPayload`
unfoldable pub extract_eebus_from_dlt_payload : List ℕ → List ℕ → List ℕ → Option DltExtractResult
unfolding looks_like_eebus_payload search_cem search_anywhere
extract_eebus_from_dlt_payload apid ctid payload =
    if has_text payload dlt_truncated_marker
    then if looks_like_eebus_payload apid ctid payload
      then some (record { json = []; direction = Direction.unknown; truncated = true })
      else none
    else elim (if is_cem apid ctid then search_cem payload else none) [
      | some r ↦ some r
      | none ↦ search_anywhere payload
    ]

-- The Unix epoch in nanoseconds since Go's zero time.
abbrev pub unix_epoch : ℕ
unix_epoch = 62135596800 * 1000000000

-- `DLTFrameToMessage`: the message, if there is one, and whether the frame was truncated.
unfoldable pub dlt_frame_to_message : Decoders → DltBinaryMessage → ℕ → Option Message × Bool
dlt_frame_to_message lib frame seq_num =
    if not frame.verbose || frame.args == []
    then (none, false)
    else elim (extract_eebus_from_dlt_payload frame.apid frame.ctid frame.args) [
      | none ↦ (none, false)
      | some r ↦
          if r.truncated
          then (none, true)
          else if not (is_complete_json r.json)
          then (none, true)
          else (
            some (
                build_message_from_json lib (normalize_eebus_json lib r.json) seq_num
                  (frame.timestamp + unix_epoch) r.direction ""),
            false,
          )
    ]
