-- ===== src/Tests/Frames.antt =====
-- Frames and payloads as in internal/parser/dltbin_test.go and internal/parser/dlt_test.go.
use eebus_tracer.Prelude.{
  ℕ, ◌+◌, ◌*◌, ◌≤◌, ◌<◌, ◌≡◌, ◌≢◌, ◌↔◌, All, refl, inl, inr, true, false, List, [], ◌∷◌, ◌++◌,
  arith, codes, length, drop, take, nat_eq,
}
use eebus_tracer.Filter.{
  DltFilterRule, too_long, split, parse_parts, raw_rule, checked_rule, print_filter,
  parse_dlt_filter,
}
use eebus_tracer.Filter.Bounds.{Parsed, IsSized, parse_dlt_filter-IsSized}
use eebus_tracer.Filter.RoundTrip.{IsRule, parse_dlt_filter-print_filter}
use eebus_tracer.Dlt.Bytes.{ok, err, eof, u16_be}
use eebus_tracer.Dlt.CompleteJson.{is_complete_json}
use eebus_tracer.Dlt.CompleteJson.Grammar.{Balanced, is_complete_json-iff-Balanced}
use eebus_tracer.Dlt.CompleteJson.Prefix.{is_complete_json-prefix}
use eebus_tracer.Dlt.Frame.{
  decode_args, decode_verbose_string_args, DltBinaryMessage, read_standard_and_payload,
  read_dlt_message_stream, read_dlt_message, or_else, trim_zero,
}
use eebus_tracer.Dlt.Frame.Fuel.{decode_verbose_string_args-fuel}
use eebus_tracer.Dlt.Frame.Wire.{
  encode_args, Header, encode_frame, encode_storage, IsHeader, IsText,
}
use eebus_tracer.Dlt.Frame.RoundTrip.{
  decoded, read_dlt_message_stream-encode_frame, read_dlt_message-encode_frame,
}
use eebus_tracer.Dlt.Frame.Consumption.{
  read_standard_and_payload-eq-ok, read_dlt_message_stream-take,
}

-- UEH, WEID and WTMS, little-endian payload.
abbrev cem_header : Header
cem_header = record {
  htyp = 21;
  mcnt = 0;
  ecu = codes "ECU1";
  session = codes "----";
  time = 0 ∷ 0 ∷ 0 ∷ 0 ∷ [];
  msin = 1;
  noar = 1;
  apid = codes "CEM" ++ 0 ∷ [];
  ctid = codes "CEM" ++ 0 ∷ [];
}

abbrev cem_args : List (List ℕ)
cem_args = codes "[Session 42] Send:" ∷ codes "{}" ∷ []

cem_header-IsHeader : IsHeader cem_header
cem_header-IsHeader = record {
  ecu_length = refl;
  session_length = refl;
  time_length = refl;
  apid_length = refl;
  ctid_length = refl;
}

make-IsText : (s : List ℕ) → s ≢ [] → All (λ c. c ≢ 0) s → length s + 1 < 65536 → IsText s
make-IsText s n h f = record { ne_nil = n; no_nul = h; fits = f }

cem_args-IsText : All IsText cem_args
cem_args-IsText = (
  make-IsText (codes "[Session 42] Send:") (λ e. cc) (omega arith) (omega arith),
  (make-IsText (codes "{}") (λ e. cc) (omega arith) (omega arith), tt),
)

read_dlt_message_stream-encode_frame_example :
    read_dlt_message_stream (encode_frame cem_header cem_args ++ 1 ∷ 2 ∷ []) 7
    ≡ ok (record (decoded cem_header cem_args) { timestamp = 7 }, 1 ∷ 2 ∷ [])
read_dlt_message_stream-encode_frame_example =
    read_dlt_message_stream-encode_frame cem_header cem_args (1 ∷ 2 ∷ []) 7 cem_header-IsHeader
      cem_args-IsText (omega arith)

read_dlt_message-encode_frame_example :
    read_dlt_message (
      encode_storage 1700000000 123456 (b'E' ∷ b'C' ∷ b'U' ∷ b'2' ∷ [])
      ++ (encode_frame cem_header cem_args ++ []))
    ≡ ok (
      record (decoded cem_header cem_args) {
        timestamp = 1700000000 * 1000000000 + 123456 * 1000;
        ecu_id =
            or_else
              (decoded cem_header cem_args).ecu_id
              (trim_zero (b'E' ∷ b'C' ∷ b'U' ∷ b'2' ∷ []));
      },
      [],
    )
read_dlt_message-encode_frame_example =
    read_dlt_message-encode_frame cem_header cem_args [] 1700000000 123456 b'E' b'C' b'U' b'2'
      cem_header-IsHeader cem_args-IsText (omega arith) (omega arith) (omega arith)

-- A frame with no optional header, and what is read of it.
abbrev short_frame : List ℕ
short_frame = 0 ∷ 0 ∷ 0 ∷ 6 ∷ 9 ∷ 9 ∷ 5 ∷ []

abbrev short_message : DltBinaryMessage
short_message = record {
  timestamp = 0;
  ecu_id = [];
  apid = [];
  ctid = [];
  verbose = false;
  args = [];
}

read_short : read_standard_and_payload short_frame ≡ ok (short_message, 5 ∷ [])
unfolding read_standard_and_payload
read_short = refl

read_standard_and_payload-eq-ok_example :
    let n = u16_be (drop 2 short_frame) in
    (4 ≤ n) × (n ≤ length short_frame) × ((5 ∷ []) ≡ drop n short_frame)
read_standard_and_payload-eq-ok_example =
    read_standard_and_payload-eq-ok short_frame (5 ∷ []) short_message read_short

read_dlt_message_stream-take_example :
    read_dlt_message_stream (take 4 (0 ∷ 0 ∷ 0 ∷ 6 ∷ 9 ∷ 9 ∷ [])) 1 ≡ err eof
read_dlt_message_stream-take_example =
    read_dlt_message_stream-take 0 0 0 6 (9 ∷ 9 ∷ []) 4 1 refl (omega arith)

abbrev payload : List ℕ
payload = codes "\"data\":[\"a}\\\"\"]"

is_complete_json-iff-Balanced_example : (is_complete_json payload ≡ true) ↔ Balanced payload
is_complete_json-iff-Balanced_example = is_complete_json-iff-Balanced payload

payload_complete : is_complete_json (payload ++ codes ",1") ≡ true
unfolding is_complete_json
payload_complete = refl

is_complete_json-prefix_example :
    (is_complete_json (b'{' ∷ ((payload ++ codes ",1") ++ b'}' ∷ [])) ≡ true)
    × (is_complete_json (b'{' ∷ payload) ≡ false)
is_complete_json-prefix_example =
    is_complete_json-prefix b'{' b'}' payload (codes ",1") (inl refl) (inl refl) payload_complete

decode_verbose_string_args-fuel_example :
    decode_verbose_string_args (encode_args false cem_args) false
    ≡ decode_args 1000 false (encode_args false cem_args) []
decode_verbose_string_args-fuel_example =
    decode_verbose_string_args-fuel 1000 false (encode_args false cem_args) (omega arith)

-- "CEM,HEMS:MAIN"
abbrev two_rules : List DltFilterRule
two_rules =
    record { apid = codes "CEM"; ctid = [] }
    ∷ record { apid = codes "HEMS"; ctid = codes "MAIN" }
    ∷ []

two_rules-IsRule : All IsRule two_rules
two_rules-IsRule = (
  record {
    apid_named = λ e. cc;
    apid_clean = (refl, (refl, (refl, tt)));
    apid_no_comma = (refl, (refl, (refl, tt)));
    apid_no_colon = (refl, (refl, (refl, tt)));
    apid_fits = omega arith;
    ctid_clean = tt;
    ctid_no_comma = tt;
    ctid_fits = omega arith;
  },
  (
    record {
      apid_named = λ e. cc;
      apid_clean = (refl, (refl, (refl, (refl, tt))));
      apid_no_comma = (refl, (refl, (refl, (refl, tt))));
      apid_no_colon = (refl, (refl, (refl, (refl, tt))));
      apid_fits = omega arith;
      ctid_clean = (refl, (refl, (refl, (refl, tt))));
      ctid_no_comma = (refl, (refl, (refl, (refl, tt))));
      ctid_fits = omega arith;
    },
    tt,
  ),
)

parse_dlt_filter-print_filter_example : parse_dlt_filter (print_filter two_rules) ≡ inr two_rules
parse_dlt_filter-print_filter_example = parse_dlt_filter-print_filter two_rules two_rules-IsRule

parse_dlt_filter-IsSized_example :
    Parsed (All IsSized) (parse_dlt_filter (codes " CEM , HEMS:MAIN,"))
parse_dlt_filter-IsSized_example = parse_dlt_filter-IsSized (codes " CEM , HEMS:MAIN,")

too_long_refused : parse_dlt_filter (codes "CEM,HEMS1") ≡ inl (too_long (codes "HEMS1"))
unfolding parse_dlt_filter parse_parts raw_rule checked_rule split
too_long_refused = refl
