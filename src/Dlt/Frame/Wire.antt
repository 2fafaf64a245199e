-- ===== src/Dlt/Frame/Wire.antt =====
-- The AUTOSAR wire format that internal/parser/dltbin.go reads, as an encoder. It stands for what a
-- dlt-daemon sends, and is a specification: the repository has no encoder of its own.
use eebus_tracer.Prelude.{
  ℕ, ◌+◌, ◌/◌, ◌%◌, ◌<◌, ◌≡◌, ◌≢◌, Bool, true, false, List, [], ◌∷◌, ◌++◌, if◌then◌else◌, length,
  All,
}
use eebus_tracer.Dlt.Frame.{
  has_bit, htyp_ueh, htyp_msbf, htyp_weid, htyp_wsid, htyp_wtms, dlt_storage_magic,
}

-- Big-endian and little-endian numbers of two and of four bytes.
abbrev pub be16 : ℕ → List ℕ
be16 n = n / 256 % 256 ∷ n % 256 ∷ []

abbrev pub le16 : ℕ → List ℕ
le16 n = n % 256 ∷ n / 256 % 256 ∷ []

abbrev pub string_type_info : Bool → List ℕ
string_type_info true = 0 ∷ 0 ∷ 2 ∷ 0 ∷ []
string_type_info false = 0 ∷ 2 ∷ 0 ∷ 0 ∷ []

-- A string argument: type info, length with the closing NUL, text, NUL.
abbrev pub encode_arg : Bool → List ℕ → List ℕ
encode_arg be s =
    string_type_info be
    ++ ((if be then be16 (length s + 1) else le16 (length s + 1)) ++ (s ++ 0 ∷ []))

abbrev pub encode_args : Bool → List (List ℕ) → List ℕ
encode_args be [] = []
encode_args be (s ∷ ss) = encode_arg be s ++ encode_args be ss

-- The texts of the arguments with a space between two of them.
abbrev pub join_args : List (List ℕ) → List ℕ
join_args [] = []
join_args (s ∷ []) = s
join_args (s ∷ t ∷ ss) = s ++ (b' ' ∷ join_args (t ∷ ss))

-- A text that the format can carry: not empty, with no NUL, and its length in 16 bits.
pub record IsText (s : List ℕ) : Type 0 where
  pub ne_nil : s ≢ []
  pub no_nul : All (λ c. c ≢ 0) s
  pub fits : length s + 1 < 65536

-- The fields of a frame's headers; those that the flags of `htyp` leave out are not sent.
pub record Header : Type 0 where
  pub htyp : ℕ
  pub mcnt : ℕ
  pub ecu : List ℕ
  pub session : List ℕ
  pub time : List ℕ
  pub msin : ℕ
  pub noar : ℕ
  pub apid : List ℕ
  pub ctid : List ℕ

abbrev pub sent : Bool → List ℕ → List ℕ
sent true b = b
sent false b = []

abbrev pub encode_extended : Header → List ℕ
encode_extended h = h.msin ∷ h.noar ∷ (h.apid ++ h.ctid)

abbrev pub encode_body : Header → List (List ℕ) → List ℕ
encode_body h ss =
    sent (has_bit h.htyp htyp_weid) h.ecu
    ++ (sent (has_bit h.htyp htyp_wsid) h.session
        ++ (sent (has_bit h.htyp htyp_wtms) h.time
            ++ (sent (has_bit h.htyp htyp_ueh) (encode_extended h)
                ++ encode_args (has_bit h.htyp htyp_msbf) ss)))

abbrev pub encode_frame : Header → List (List ℕ) → List ℕ
encode_frame h ss = h.htyp ∷ h.mcnt ∷ (be16 (length (encode_body h ss) + 4) ++ encode_body h ss)

pub record IsHeader (h : Header) : Type 0 where
  pub ecu_length : length h.ecu ≡ 4
  pub session_length : length h.session ≡ 4
  pub time_length : length h.time ≡ 4
  pub apid_length : length h.apid ≡ 4
  pub ctid_length : length h.ctid ≡ 4

abbrev pub le32 : ℕ → List ℕ
le32 n = n % 256 ∷ n / 256 % 256 ∷ n / 65536 % 256 ∷ n / 16777216 % 256 ∷ []

-- The storage header in front of each frame of a `.dlt` file.
abbrev pub encode_storage : ℕ → ℕ → List ℕ → List ℕ
encode_storage secs usecs ecu = dlt_storage_magic ++ (le32 secs ++ (le32 usecs ++ ecu))
