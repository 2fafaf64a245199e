-- ===== src/Dlt/Frame/RoundTrip.antt =====
-- The decoder of internal/parser/dltbin.go reads back what the encoder writes.
use eebus_tracer.Prelude.{
  ℕ, ◌+◌, ◌-◌, ◌*◌, ◌/◌, ◌%◌, ◌<◌, ◌≡◌, refl, Bool, true, false, not, List, [], ◌∷◌, ◌++◌,
  append_assoc, if◌then◌else◌, length, take, drop, All, ltb, arith, length-append, take-append,
  drop-append,
}
use eebus_tracer.Dlt.Bytes.{ok, read_full}
use eebus_tracer.Dlt.Frame.{
  DltBinaryMessage, has_bit, htyp_ueh, htyp_weid, htyp_wsid, htyp_wtms, htyp_msbf, msin_verbose,
  trim_zero, optional_field, extended_header, decode_body, empty_message, read_standard_and_payload,
  read_dlt_message_stream, read_dlt_message, or_else,
}
use eebus_tracer.Dlt.Frame.Args.{decode_verbose_string_args-encode_args}
use eebus_tracer.Dlt.Frame.Wire.{
  be16, encode_args, join_args, encode_storage, IsText, Header, sent, encode_extended, encode_body,
  encode_frame, IsHeader,
}

pub read_full-append : (a b : List ℕ) → read_full (length a) (a ++ b) ≡ ok (a, b)
unfolding read_full
read_full-append [] b = refl
read_full-append (x ∷ a) b =
    let long : ltb (length (a ++ b)) (length a) ≡ false = ground (arith, length-append a b) in
    rw long (rw (take-append a b, drop-append a b))

module _ (a b : List ℕ) (four : length a ≡ 4) where
  take_four : take 4 (a ++ b) ≡ a
  take_four = rw (← four) (take-append a b)

  drop_four : drop 4 (a ++ b) ≡ b
  drop_four = rw (← four) (drop-append a b)

  optional_field-sent : (flag : Bool) → optional_field flag (sent flag a ++ b) ≡ ok (sent flag a, b)
  unfolding optional_field
  optional_field-sent true =
      let long : ltb (length (a ++ b)) 4 ≡ false = ground (arith, length-append a b) in
      rw long (rw (take_four, drop_four))
  optional_field-sent false = refl

-- What the extended header adds to a message.
abbrev pub extended : Bool → Header → DltBinaryMessage → DltBinaryMessage
extended true h msg = record msg {
  apid = trim_zero h.apid;
  ctid = trim_zero h.ctid;
  verbose = has_bit h.msin msin_verbose;
}
extended false h msg = msg

drop_eight : (b : List ℕ) → drop 8 b ≡ drop 4 (drop 4 b)
drop_eight [] = refl
drop_eight (x ∷ []) = refl
drop_eight (x ∷ y ∷ []) = refl
drop_eight (x ∷ y ∷ z ∷ []) = refl
drop_eight (x ∷ y ∷ z ∷ w ∷ b) = refl

extended_header-sent :
    (flag : Bool) (h : Header) (msg : DltBinaryMessage) (b : List ℕ)
    → IsHeader h
    → extended_header flag msg (sent flag (encode_extended h) ++ b) ≡ ok (extended flag h msg, b)
unfolding extended_header
extended_header-sent false h msg b k = refl
extended_header-sent true h msg b k =
    let b' = h.ctid ++ b in
    let long : ltb (length (h.msin ∷ h.noar ∷ (h.apid ++ b'))) 10 ≡ false =
      ground (arith, length-append h.apid b', length-append h.ctid b) in
    rw (append_assoc h.apid h.ctid b, long, drop_eight (h.apid ++ b'))
      (rw (take_four h.apid b' k.apid_length, drop_four h.apid b' k.apid_length)
        (rw (take_four h.ctid b k.ctid_length, drop_four h.ctid b k.ctid_length)))

-- What the decoder is to make of a frame.
abbrev pub decoded : Header → List (List ℕ) → DltBinaryMessage
decoded h ss =
    let m =
      extended (has_bit h.htyp htyp_ueh) h
        (record empty_message { ecu_id = trim_zero (sent (has_bit h.htyp htyp_weid) h.ecu) }) in
    if not m.verbose then m else record m { args = join_args ss }

decode_body-encode_body :
    (h : Header) (ss : List (List ℕ))
    → IsHeader h
    → All IsText ss
    → decode_body h.htyp (encode_body h ss) ≡ ok (decoded h ss)
unfolding decode_body
decode_body-encode_body h ss k t =
    let args = encode_args (has_bit h.htyp htyp_msbf) ss in
    rw (optional_field-sent h.ecu _ k.ecu_length (has_bit h.htyp htyp_weid)) (
      rw (optional_field-sent h.session _ k.session_length (has_bit h.htyp htyp_wsid)) (
        rw (optional_field-sent h.time _ k.time_length (has_bit h.htyp htyp_wtms)) (
          rw (extended_header-sent (has_bit h.htyp htyp_ueh) h _ args k)
            (rw (decode_verbose_string_args-encode_args (has_bit h.htyp htyp_msbf) ss t)))))

sized : (n : ℕ) → n + 4 < 65536 → (n + 4) / 256 % 256 * 256 + (n + 4) % 256 - 4 ≡ n
sized n h = omega arith

not_bogus : (n : ℕ) → n + 4 < 65536 → ltb ((n + 4) / 256 % 256 * 256 + (n + 4) % 256) 4 ≡ false
not_bogus n h =
    let e : (n + 4) / 256 % 256 * 256 + (n + 4) % 256 ≡ n + 4 = omega arith in rw e (ground arith)

read_standard-body :
    (htyp mcnt : ℕ) (body rest : List ℕ) (msg : DltBinaryMessage)
    → length body + 4 < 65536
    → decode_body htyp body ≡ ok msg
    → read_standard_and_payload (htyp ∷ mcnt ∷ (be16 (length body + 4) ++ (body ++ rest)))
      ≡ ok (msg, rest)
unfolding read_standard_and_payload
read_standard-body htyp mcnt body rest msg small e =
    let n = length body in
    rw (read_full-append (htyp ∷ mcnt ∷ be16 (n + 4)) (body ++ rest))
      (rw (not_bogus n small, sized n small, read_full-append body rest) (rw e))

-- A frame of any flags is read back from the head of a stream, with what follows it left there.
pub read_dlt_message_stream-encode_frame :
    (h : Header) (ss : List (List ℕ)) (rest : List ℕ) (ts : ℕ)
    → IsHeader h
    → All IsText ss
    → length (encode_body h ss) + 4 < 65536
    → read_dlt_message_stream (encode_frame h ss ++ rest) ts
      ≡ ok (record (decoded h ss) { timestamp = ts }, rest)
unfolding read_dlt_message_stream
read_dlt_message_stream-encode_frame h ss rest ts k t small = rw (
    read_standard-body h.htyp h.mcnt (encode_body h ss) rest (decoded h ss) small
      (decode_body-encode_body h ss k t))

u32_le-le32 :
    (n : ℕ)
    → n < 4294967296
    → n % 256 + n / 256 % 256 * 256 + n / 65536 % 256 * 65536 + n / 16777216 % 256 * 16777216 ≡ n
u32_le-le32 n h = omega arith

-- The same in a file, with the storage header in front: its time is the message's, and its ECU id
-- serves where the frame has none.
pub read_dlt_message-encode_frame :
    (h : Header) (ss : List (List ℕ)) (rest : List ℕ) (secs usecs a b c d : ℕ)
    → IsHeader h
    → All IsText ss
    → length (encode_body h ss) + 4 < 65536
    → secs < 4294967296
    → usecs < 4294967296
    → read_dlt_message
        (encode_storage secs usecs (a ∷ b ∷ c ∷ d ∷ []) ++ (encode_frame h ss ++ rest))
      ≡ ok (
        record (decoded h ss) {
          timestamp = secs * 1000000000 + usecs * 1000;
          ecu_id = or_else (decoded h ss).ecu_id (trim_zero (a ∷ b ∷ c ∷ d ∷ []));
        },
        rest,
      )
unfolding read_dlt_message
read_dlt_message-encode_frame h ss rest secs usecs a b c d k t small hs hu =
    rw
      (read_full-append (encode_storage secs usecs (a ∷ b ∷ c ∷ d ∷ []))
        (encode_frame h ss ++ rest))
      (rw (
        u32_le-le32 secs hs,
        u32_le-le32 usecs hu,
        read_standard-body h.htyp h.mcnt (encode_body h ss) rest (decoded h ss) small
            (decode_body-encode_body h ss k t),
      ))
