-- ===== src/Import/Eet.antt =====
-- The .eet files (internal/store/fileio.go: `ExportTrace`, `ImportTrace`). What encoding/json reads of a
-- text into `EETFile` is an argument.
use eebus_tracer.Prelude.{
  ℕ, String, not, List, Option, none, some, ◌⊎◌, inl, inr, ◌==◌, string_eq, if◌then◌else◌, map,
  length,
}
use eebus_tracer.Model.Payload.{Json}
use eebus_tracer.Model.{Direction, ShipMsgType, Message}
use eebus_tracer.Parser.{zero_message}
use eebus_tracer.Import.Progress.{Trace, ImportError}

-- `EETTrace`, whose description is left aside as in `Trace`.
pub record EetTrace : Type 0 where
  pub name : String
  pub started_at : ℕ
  pub stopped_at : Option ℕ

-- `EETMessage`
pub record EetMessage : Type 0 where
  pub sequence_num : ℕ
  pub timestamp : ℕ
  pub direction : Direction
  pub source_addr : String
  pub dest_addr : String
  pub raw_hex : List ℕ
  pub normalized_json : Option Json
  pub ship_msg_type : ShipMsgType
  pub ship_payload : Option Json
  pub spine_payload : Option Json
  pub cmd_classifier : String
  pub function_set : String
  pub msg_counter : String
  pub msg_counter_ref : String
  pub device_source : String
  pub device_dest : String
  pub entity_source : String
  pub entity_dest : String
  pub feature_source : String
  pub feature_dest : String
  pub parse_error : String

-- `EETFile`
pub record EetFile : Type 0 where
  pub version : String
  pub trace : EetTrace
  pub messages : List EetMessage

-- `eetFormatVersion`
abbrev pub eet_format_version : String
eet_format_version = "1.0"

-- The body of the loop of `ExportTrace`.
abbrev pub exported : Message → EetMessage
exported m = record {
  sequence_num = m.sequence_num;
  timestamp = m.timestamp;
  direction = m.direction;
  source_addr = m.source_addr;
  dest_addr = m.dest_addr;
  raw_hex = m.raw_hex;
  normalized_json = m.normalized_json;
  ship_msg_type = m.ship_msg_type;
  ship_payload = m.ship_payload;
  spine_payload = m.spine_payload;
  cmd_classifier = m.cmd_classifier;
  function_set = m.function_set;
  msg_counter = m.msg_counter;
  msg_counter_ref = m.msg_counter_ref;
  device_source = m.device_source;
  device_dest = m.device_dest;
  entity_source = m.entity_source;
  entity_dest = m.entity_dest;
  feature_source = m.feature_source;
  feature_dest = m.feature_dest;
  parse_error = m.parse_error;
}

-- `ExportTrace`: the file that is encoded.
unfoldable pub export_trace : Trace → List Message → EetFile
export_trace trace messages = record {
  version = eet_format_version;
  trace = record {
    name = trace.name;
    started_at = trace.started_at;
    stopped_at = trace.stopped_at;
  };
  messages = map exported messages;
}

-- The body of the loop of `ImportTrace`.
abbrev pub imported : EetMessage → Message
imported m = record zero_message {
  sequence_num = m.sequence_num;
  timestamp = m.timestamp;
  direction = m.direction;
  source_addr = m.source_addr;
  dest_addr = m.dest_addr;
  raw_hex = m.raw_hex;
  normalized_json = m.normalized_json;
  ship_msg_type = m.ship_msg_type;
  ship_payload = m.ship_payload;
  spine_payload = m.spine_payload;
  cmd_classifier = m.cmd_classifier;
  function_set = m.function_set;
  msg_counter = m.msg_counter;
  msg_counter_ref = m.msg_counter_ref;
  device_source = m.device_source;
  device_dest = m.device_dest;
  entity_source = m.entity_source;
  entity_dest = m.entity_dest;
  feature_source = m.feature_source;
  feature_dest = m.feature_dest;
  parse_error = m.parse_error;
}

-- `ImportTrace` of a decoded file.
unfoldable pub import_eet_file : EetFile → ℕ → ImportError ⊎ (Trace × List Message)
import_eet_file file now =
    if not (file.version == eet_format_version)
    then inl ImportError.eet_version
    else inr (
      record {
        name = file.trace.name;
        started_at = file.trace.started_at;
        stopped_at = file.trace.stopped_at;
        message_count = length file.messages;
        created_at = now;
        skipped_truncated = 0;
      },
      map imported file.messages,
    )

-- `ImportTrace`
unfoldable pub import_trace :
    (List ℕ → Option EetFile) → List ℕ → ℕ → ImportError ⊎ (Trace × List Message)
unfolding import_eet_file
import_trace read_eet text now = elim (read_eet text) [
  | none ↦ inl ImportError.eet_failed
  | some file ↦ import_eet_file file now
]
