-- ===== src/Dlt/Frame.antt =====
-- The decoder of DLT frames (internal/parser/dltbin.go). A position in a slice is the list of the
-- bytes from there on, so `pos+n > len(rest)` reads `length rest < n`.
pub mod Wire
pub mod Args
pub mod RoundTrip
pub mod Consumption
pub mod Fuel
use eebus_tracer.Prelude.{
  ℕ, zero, suc, ◌+◌, ◌-◌, ◌*◌, ◌/◌, ◌%◌, Bool, true, false, not, ◌&&◌, List, [], ◌∷◌, ◌++◌, ◌==◌,
  nat_eq, if◌then◌else◌, length, take, drop, ltb, leb,
}
use eebus_tracer.Dlt.Bytes.{
  eof, unexpected_eof, bad_magic, bogus_length, Result, ok, err, ◌>>=◌, read_full, byte_at, u16_be,
  u16_le, u32_be, u32_le,
}

-- `b & m != 0` for `m = 2 ^ k` given as the number `m`.
abbrev pub has_bit : ℕ → ℕ → Bool
has_bit b m = b / m % 2 == 1

-- `htypUEH`, `htypMSBF`, `htypWEID`, `htypWSID`, `htypWTMS`, `msinVerbose`, `typeInfoStringMask`
abbrev pub htyp_ueh : ℕ
htyp_ueh = 1

abbrev pub htyp_msbf : ℕ
htyp_msbf = 2

abbrev pub htyp_weid : ℕ
htyp_weid = 4

abbrev pub htyp_wsid : ℕ
htyp_wsid = 8

abbrev pub htyp_wtms : ℕ
htyp_wtms = 16

abbrev pub msin_verbose : ℕ
msin_verbose = 1

abbrev pub type_info_string_mask : ℕ
type_info_string_mask = 512

pub record DltBinaryMessage : Type 0 where
  pub timestamp : ℕ  -- nanoseconds since the Unix epoch
  pub ecu_id : List ℕ
  pub apid : List ℕ
  pub ctid : List ℕ
  pub verbose : Bool
  pub args : List ℕ

-- `trimZero` with `indexNul`: the bytes in front of the first NUL.
unfoldable pub trim_zero : List ℕ → List ℕ
trim_zero [] = []
trim_zero (c ∷ b) = if c == 0 then [] else c ∷ trim_zero b

-- `if len(out) > 0 { out = append(out, ' ') }; out = append(out, s...)`
unfoldable pub append_arg : List ℕ → List ℕ → List ℕ
append_arg [] s = s
append_arg (c ∷ out) s = (c ∷ out) ++ (b' ' ∷ s)

-- The loop of `decodeVerboseStringArgs` on the bytes from `pos` on. Each round but the last takes
-- six bytes or more, so the number of the bytes is enough fuel.
unfoldable pub decode_args : ℕ → Bool → List ℕ → List ℕ → List ℕ
unfolding append_arg trim_zero
decode_args zero be p out = out
decode_args (suc fuel) be p out =
    let type_info = if be then u32_be p else u32_le p in
    let body = drop 4 p in
    let sl = if be then u16_be body else u16_le body in
    let text = drop 2 body in
    let rest = decode_args fuel be (drop sl text) (append_arg out (trim_zero (take sl text))) in
    if ltb (length p) 4
    then out
    else if not (has_bit type_info type_info_string_mask)
    then out
    else if ltb (length body) 2
    then out
    else if ltb (length text) sl
    then out
    else rest

unfoldable pub decode_verbose_string_args : List ℕ → Bool → List ℕ
unfolding decode_args
decode_verbose_string_args p be = decode_args (length p) be p []

-- A header field of four bytes that is there if its flag is set.
unfoldable pub optional_field : Bool → List ℕ → Result (List ℕ × List ℕ)
optional_field false b = ok ([], b)
optional_field true b = if ltb (length b) 4 then err unexpected_eof else ok (take 4 b, drop 4 b)

-- The extended header, into the message.
unfoldable pub extended_header :
    Bool → DltBinaryMessage → List ℕ → Result (DltBinaryMessage × List ℕ)
unfolding trim_zero
extended_header false msg b = ok (msg, b)
extended_header true msg b =
    if ltb (length b) 10
    then err unexpected_eof
    else ok (
      (record msg {
        apid = trim_zero (take 4 (drop 2 b));
        ctid = trim_zero (take 4 (drop 6 b));
        verbose = has_bit (byte_at 0 b) msin_verbose;
      }),
      drop 10 b,
    )

abbrev pub empty_message : DltBinaryMessage
empty_message = record {
  timestamp = 0;
  ecu_id = [];
  apid = [];
  ctid = [];
  verbose = false;
  args = [];
}

-- `readStandardAndPayload` from `pos := 0` on, over the bytes of the message behind the header.
unfoldable pub decode_body : ℕ → List ℕ → Result DltBinaryMessage
unfolding optional_field extended_header trim_zero decode_verbose_string_args
decode_body htyp rest = do
  (ecu, after_ecu) ← optional_field (has_bit htyp htyp_weid) rest
  (session, after_session) ← optional_field (has_bit htyp htyp_wsid) after_ecu
  (time, after_time) ← optional_field (has_bit htyp htyp_wtms) after_session
  (msg, payload) ←
      extended_header (has_bit htyp htyp_ueh) (record empty_message { ecu_id = trim_zero ecu })
        after_time
  ok (
      if not msg.verbose
      then msg
      else record msg { args = decode_verbose_string_args payload (has_bit htyp htyp_msbf) })

-- `readStandardAndPayload`: the message, and what the reader still holds.
unfoldable pub read_standard_and_payload : List ℕ → Result (DltBinaryMessage × List ℕ)
unfolding read_full decode_body
read_standard_and_payload r = do
  (std, r') ← read_full 4 r
  let htyp = byte_at 0 std
  let msg_len = u16_be (drop 2 std)
  if ltb msg_len 4
      then err bogus_length
      else do (rest, r'') ← read_full (msg_len - 4) r'; msg ← decode_body htyp rest; ok (msg, r'')

-- `ReadDLTMessageStream`
unfoldable pub read_dlt_message_stream : List ℕ → ℕ → Result (DltBinaryMessage × List ℕ)
unfolding read_standard_and_payload
read_dlt_message_stream r fallback_ts = do
  (msg, r') ← read_standard_and_payload r
  ok ((record msg { timestamp = fallback_ts }), r')

abbrev pub bytes_equal : List ℕ → List ℕ → Bool
bytes_equal [] [] = true
bytes_equal (x ∷ xs) (y ∷ ys) = x == y && bytes_equal xs ys
bytes_equal _ _ = false

-- `dltStorageMagic`, "DLT\x01"
abbrev pub dlt_storage_magic : List ℕ
dlt_storage_magic = b'D' ∷ b'L' ∷ b'T' ∷ 1 ∷ []

-- `if msg.ECUID == "" { msg.ECUID = ecuID }`
abbrev pub or_else : List ℕ → List ℕ → List ℕ
or_else [] d = d
or_else (c ∷ b) d = c ∷ b

-- `ReadDLTMessage`
unfoldable pub read_dlt_message : List ℕ → Result (DltBinaryMessage × List ℕ)
unfolding read_standard_and_payload read_full trim_zero
read_dlt_message r = do
  (storage, r') ← read_full 16 r
  if not (bytes_equal (take 4 storage) dlt_storage_magic) then err bad_magic else do
    let secs = u32_le (drop 4 storage)
    let usecs = u32_le (drop 8 storage)
    (msg, r'') ← read_standard_and_payload r'
    ok (
      (record msg {
        timestamp = secs * 1000000000 + usecs * 1000;
        ecu_id = or_else msg.ecu_id (trim_zero (drop 12 storage));
      }),
      r'',
    )
