-- ===== src/Parser/Properties.antt =====
-- What `Parse` of internal/parser/parser.go keeps, and how it reports errors.
use eebus_tracer.Prelude.{
  ℕ, ◌≡◌, refl, String, List, [], ◌∷◌, Option, none, some, ◌⊎◌, inl, inr, arith,
}
use eebus_tracer.Model.Payload.{Json}
use eebus_tracer.Model.{Message}
use eebus_tracer.Parser.Library.{Decoders}
use eebus_tracer.Parser.Ship.{ShipClassification}
use eebus_tracer.Parser.{
  parse, hex_encode, parse_frame, parse_classified, parse_payload, zero_message,
}

-- What every branch of `Parse` keeps of the message `m` that it begins with. A message with an error
-- has no SPINE payload.
pub record Kept (m n : Message) : Type 0 where
  pub trace_id_kept : n.trace_id ≡ m.trace_id
  pub sequence_num_kept : n.sequence_num ≡ m.sequence_num
  pub timestamp_kept : n.timestamp ≡ m.timestamp
  pub raw_bytes_kept : n.raw_bytes ≡ m.raw_bytes
  pub raw_hex_kept : n.raw_hex ≡ m.raw_hex
  pub error_or_payload : (n.spine_payload ≡ none) ⊎ (n.parse_error ≡ "")

module _ (lib : Decoders) where
  parse_payload-Kept :
      (m : Message) (p : Option Json)
      → (m.spine_payload ≡ none) × (m.parse_error ≡ "")
      → Kept m (parse_payload lib m p)
  unfolding parse_payload
  parse_payload-Kept m none h = ground arith
  parse_payload-Kept m (some j) h = ground arith

  parse_classified-Kept :
      (m : Message) (c : String ⊎ ShipClassification)
      → (m.spine_payload ≡ none) × (m.parse_error ≡ "")
      → Kept m (parse_classified lib m c)
  unfolding parse_classified
  parse_classified-Kept m (inl e) h = ground arith
  parse_classified-Kept m (inr c) h = ground arith

  parse_frame-Kept :
      (m : Message) (raw : List ℕ)
      → (m.spine_payload ≡ none) × (m.parse_error ≡ "")
      → Kept m (parse_frame lib m raw)
  unfolding parse_frame
  parse_frame-Kept m [] h = ground arith
  parse_frame-Kept m (a ∷ []) h = ground arith
  parse_frame-Kept m (a ∷ b ∷ r) h = ground arith

  -- On every branch of `Parse`, errors included, the message keeps the raw bytes with their hex text,
  -- and the trace, sequence number and time that the caller gave, and it has no SPINE payload or no
  -- error.
  pub parse-Kept :
      (raw : List ℕ) (trace_id seq_num ts : ℕ)
      → Kept
          (record zero_message {
            trace_id = trace_id;
            sequence_num = seq_num;
            timestamp = ts;
            raw_bytes = raw;
            raw_hex = hex_encode raw;
          })
          (parse lib raw trace_id seq_num ts)
  unfolding parse
  parse-Kept raw trace_id seq_num ts = parse_frame-Kept _ raw (refl, refl)
