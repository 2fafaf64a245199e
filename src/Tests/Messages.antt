-- ===== src/Tests/Messages.antt =====
-- The parser and the importers of log files at work.
use eebus_tracer.Prelude.{
  ℕ, ◌≡◌, refl, inl, inr, String, true, List, [], ◌∷◌, ◌⊎◌, Option, none, some, arith, codes, ◌==◌,
  list_eq, nat_eq, if◌then◌else◌, take, map,
}
use eebus_tracer.Prelude.Int.{pos}
use eebus_tracer.Model.Payload.{Json, int, str, arr, obj, nil, cons, Members, end, member}
use eebus_tracer.Parser.{zero_message}
use eebus_tracer.Model.{Message, Direction, ShipMsgType}
use eebus_tracer.Subscriptions.Payload.{extract_cmds}
use eebus_tracer.Parser.Library.{Decoders}
use eebus_tracer.Parser.Fixup.{fixup_spine_datagram}
use eebus_tracer.Parser.Ship.{ShipClassification, classify_ship_message}
use eebus_tracer.Parser.Idempotent.{fixup_spine_datagram-idempotent}
use eebus_tracer.Parser.Commands.{extract_cmds-fixup_spine_datagram}
use eebus_tracer.Parser.Messages.{build_message_from_json, parse_spine_from_json}
use eebus_tracer.Parser.Building.{decoded, build_message_from_json-parse}
use eebus_tracer.Parser.{parse, trim_right_nul, is_eebus_format}
use eebus_tracer.Dlt.Frame.{DltBinaryMessage}
use eebus_tracer.Dlt.Extract.{dlt_frame_to_message}
use eebus_tracer.Dlt.Delivery.{Delivered, dlt_frame_to_message-Delivered}
use eebus_tracer.Logs.Times.{parse_eebus_tester_timestamp, parse_eebus_hub_timestamp}
use eebus_tracer.Logs.Detect.{LogFormat, detect_log_format, extract_peer_device}
use eebus_tracer.Import.Progress.{Trace, finish}
use eebus_tracer.Import.Lines.{scan_lines}
use eebus_tracer.Import.Importers.{import_eebus_hub_log_file, each_line, matched}
use eebus_tracer.Logs.Regexp.{find_submatch}
use eebus_tracer.Import.Auto.{import_as, Imported, import_file_auto_detect}
use eebus_tracer.Import.Eet.{EetFile, export_trace, import_trace}
use eebus_tracer.Import.Exported.{carried, trace_of, import_trace-export_trace}

abbrev one : String → Json → Members
one k j = member k j end

-- A datagram whose arrays are flattened.
abbrev flat_datagram : Json
flat_datagram = obj (
    one "datagram" (
      obj (
        member "header"
          (obj (one "addressSource" (obj (member "device" (str "d") (one "entity" (int (pos 1)))))))
          (one "payload" (obj (one "cmd" (obj (one "measurementListData" (obj end)))))))))

abbrev list_of_one : Json → Json
list_of_one j = arr (cons j nil)

repaired :
    fixup_spine_datagram flat_datagram
    ≡ obj (
        one "datagram" (
          obj (
            member "header"
              (obj (
                one "addressSource"
                  (obj (member "device" (str "d") (one "entity" (list_of_one (int (pos 1))))))))
              (one "payload"
                (obj (one "cmd" (list_of_one (obj (one "measurementListData" (obj end))))))))))
unfolding fixup_spine_datagram
repaired = refl

fixup_spine_datagram-idempotent_example :
    fixup_spine_datagram (fixup_spine_datagram flat_datagram) ≡ fixup_spine_datagram flat_datagram
fixup_spine_datagram-idempotent_example = fixup_spine_datagram-idempotent flat_datagram

extract_cmds-fixup_spine_datagram_example :
    (extract_cmds (some (fixup_spine_datagram flat_datagram)) ≡ extract_cmds (some flat_datagram))
    ⊎ (extract_cmds (some flat_datagram) ≡ [])
extract_cmds-fixup_spine_datagram_example = extract_cmds-fixup_spine_datagram flat_datagram

-- Decoders that know two texts, "ship" and "spine".
abbrev ship_value : Json
ship_value = obj (one "data" (obj (one "payload" flat_datagram)))

abbrev lib : Decoders
lib = record {
  json_from_eebus_json = λ b. b;
  read_json = λ b.
      if b == codes "ship"
      then some ship_value
      else if b == codes "spine"
      then some flat_datagram
      else none;
  read_error = λ b. "syntax";
  slice_fields = λ t. [];
  unmarshal_ship = λ t j. none;
  decode_datagram = λ j. inr (record {
    cmd_classifier = some "notify";
    msg_counter = some 7;
    msg_counter_reference = none;
    address_source = some (record { device = some "d"; entity = 1 ∷ 2 ∷ []; feature = some 3 });
    address_destination = none;
    cmds = "measurementListData" ∷ [];
  });
}

shipped :
    let m = build_message_from_json lib (codes "ship") 4 9 Direction.outgoing "peer" in
    (m.ship_msg_type ≡ ShipMsgType.data_msg)
    × (m.entity_source ≡ "1.2")
    × (m.feature_source ≡ "3")
    × (m.device_dest ≡ "peer")
    × (m.msg_counter ≡ "7")
unfolding build_message_from_json
shipped = (refl, refl, refl, refl, refl)

abbrev ship_class : ShipClassification
ship_class = record {
  msg_type = ShipMsgType.data_msg;
  ship_payload = ship_value;
  data_payload = some flat_datagram;
}

build_message_from_json-parse_example :
    decoded (parse lib (2 ∷ codes "ship") 1 5 8)
    ≡ decoded (build_message_from_json lib (codes "ship") 4 9 Direction.unknown "peer")
unfolding trim_right_nul is_eebus_format parse_spine_from_json classify_ship_message
build_message_from_json-parse_example =
    build_message_from_json-parse lib 2 b's' (codes "hip") ship_class 1 5 8 4 9 "peer" (omega arith)
      refl refl refl refl

abbrev cem_frame : DltBinaryMessage
cem_frame = record {
  timestamp = 1000;
  ecu_id = codes "ECU1";
  apid = codes "CEM";
  ctid = codes "CEM";
  verbose = true;
  args = codes "[Session 38099] Send: {}";
}

dlt_frame_to_message-Delivered_example :
    Delivered lib cem_frame 6 (dlt_frame_to_message lib cem_frame 6)
dlt_frame_to_message-Delivered_example = dlt_frame_to_message-Delivered lib cem_frame 6

tester_time :
    parse_eebus_tester_timestamp (codes "20260206") (codes "11:54:15.338")
    ≡ some 63905975655338000000
unfolding parse_eebus_tester_timestamp
tester_time = refl

hub_time :
    parse_eebus_hub_timestamp (codes "2026-03-16") (codes "05:19:57") ≡ some 63909235197000000000
unfolding parse_eebus_hub_timestamp
hub_time = refl

peer_name :
    extract_peer_device (codes "ship_Volvo-CEM-400000270_0xaff223b8") ≡ codes "Volvo-CEM-400000270"
unfolding extract_peer_device
peer_name = refl

abbrev hub_log : List ℕ
hub_log =
    codes
      "2026-03-16 05:19:57    [Send] 1adbb6152b3902b028b2f4c1b3855777f19fb4f7ship\n2026-03-16 05:19:58  [Recv] 1adbb6152b3902b028b2f4c1b3855777f19fb4f7?\n"

hub_format : detect_log_format (take 4096 hub_log) ≡ LogFormat.eebus_hub
unfolding detect_log_format
hub_format = refl

-- An export that is read back.
abbrev kept_message : Message
kept_message = record zero_message {
  id = 9;
  trace_id = 4;
  sequence_num = 1;
  timestamp = 50;
  cmd_classifier = "read";
}

abbrev kept_trace : Trace
kept_trace = record {
  name = "run";
  started_at = 50;
  stopped_at = some 60;
  message_count = 1;
  created_at = 1;
  skipped_truncated = 2;
}

abbrev read_kept : List ℕ → Option EetFile
read_kept text =
    if text == codes "{}" then some (export_trace kept_trace (kept_message ∷ [])) else none

import_trace-export_trace_example :
    import_trace read_kept (codes "{}") 5 ≡ inr (trace_of kept_trace 1 5, carried kept_message ∷ [])
import_trace-export_trace_example =
    import_trace-export_trace read_kept (codes "{}") kept_trace (kept_message ∷ []) 5 refl

abbrev numbers : Option Imported → List ℕ
numbers none = []
numbers (some (inl e)) = []
numbers (some (inr (trace, ms))) = trace.message_count ∷ map (λ m. m.sequence_num) ms

hub_import : numbers (import_file_auto_detect lib 0 read_kept hub_log "log" 5) ≡ 2 ∷ 1 ∷ 2 ∷ []
unfolding import_file_auto_detect import_as import_eebus_hub_log_file detect_log_format scan_lines
    each_line matched find_submatch finish
hub_import = refl
