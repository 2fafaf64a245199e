-- ===== src/Logs/Patterns.antt =====
-- The expressions of the log formats (internal/parser/logformat.go, internal/parser/dlt.go).
use eebus_tracer.Prelude.{
  ℕ, zero, suc, Bool, not, ◌&&◌, ◌||◌, List, [], ◌∷◌, ◌==◌, nat_eq, ltb, codes, String,
}
use eebus_tracer.Logs.Regexp.{Regexp, empty, class, plus, seq, alt, group}
use eebus_tracer.Dlt.Patterns.{is_blank, is_digit}

abbrev pub is_hex : ℕ → Bool
is_hex c = is_digit c || not (ltb c 97) && ltb c 103 || not (ltb c 65) && ltb c 71

-- A text, and several expressions one behind the other.
abbrev pub bytes : List ℕ → Regexp
bytes [] = empty
bytes (c ∷ s) = seq (class (λ x. x == c)) (bytes s)

abbrev pub word : String → Regexp
word t = bytes (codes t)

abbrev pub all_of : List Regexp → Regexp
all_of [] = empty
all_of (r ∷ rs) = seq r (all_of rs)

abbrev pub times : ℕ → Regexp → Regexp
times zero r = empty
times (suc n) r = seq r (times n r)

-- `\s+`, `\s*`, `\S+`, `\d{n}`, `\d+`, `.+`, `.*`, `(?:…)?`
abbrev pub blanks : Regexp
blanks = plus is_blank

abbrev pub optional : Regexp → Regexp
optional r = alt r empty

abbrev pub solid : Regexp
solid = plus (λ c. not (is_blank c))

abbrev pub digits : ℕ → Regexp
digits n = times n (class is_digit)

abbrev pub any_text : Regexp
any_text = plus (λ c. not (c == 10))

-- `\d{2}:\d{2}:\d{2}`, and a date with a separator.
abbrev pub hms : Regexp
hms = all_of (digits 2 ∷ word ":" ∷ digits 2 ∷ word ":" ∷ digits 2 ∷ [])

abbrev pub hms_ms : Regexp
hms_ms = all_of (hms ∷ word "." ∷ digits 3 ∷ [])

abbrev pub ymd : String → Regexp
ymd sep = all_of (digits 4 ∷ word sep ∷ digits 2 ∷ word sep ∷ digits 2 ∷ [])

-- `LogLineRegex`
abbrev pub log_line_regex : Regexp
log_line_regex = all_of (
    optional (seq (group 1 (plus is_digit)) blanks)
    ∷ word "["
    ∷ group 2 hms_ms
    ∷ word "]"
    ∷ blanks
    ∷ group 3 (alt (word "SEND") (word "RECV"))
    ∷ blanks
    ∷ alt (word "to") (word "from")
    ∷ blanks
    ∷ group 4 solid
    ∷ blanks
    ∷ word "MSG:"
    ∷ blanks
    ∷ group 5 any_text
    ∷ [])

-- `EEBusTesterLogRegex`
abbrev pub eebus_tester_log_regex : Regexp
eebus_tester_log_regex = all_of (
    word "["
    ∷ group 1 (digits 8)
    ∷ blanks
    ∷ group 2 hms_ms
    ∷ word "]"
    ∷ blanks
    ∷ word "-"
    ∷ blanks
    ∷ word "INFO"
    ∷ blanks
    ∷ word "-"
    ∷ blanks
    ∷ word "DATAGRAM"
    ∷ blanks
    ∷ word "-"
    ∷ blanks
    ∷ solid
    ∷ blanks
    ∷ word "-"
    ∷ blanks
    ∷ group 3 (alt (word "Send") (word "Received"))
    ∷ blanks
    ∷ word "message"
    ∷ blanks
    ∷ alt (word "to") (word "from")
    ∷ blanks
    ∷ word "'"
    ∷ group 4 (plus (λ c. not (c == 39)))
    ∷ word "':"
    ∷ blanks
    ∷ group 5 any_text
    ∷ [])

-- `EEBusHubLogRegex`
abbrev pub eebus_hub_log_regex : Regexp
eebus_hub_log_regex = all_of (
    group 1 (ymd "-")
    ∷ blanks
    ∷ group 2 hms
    ∷ blanks
    ∷ word "["
    ∷ group 3 (alt (word "Send") (word "Recv"))
    ∷ word "]"
    ∷ blanks
    ∷ group 4 (times 40 (class is_hex))
    ∷ group 5 any_text
    ∷ [])

-- `EVCCLogRegex`
abbrev pub evcc_log_regex : Regexp
evcc_log_regex = all_of (
    word "[eebus"
    ∷ optional blanks
    ∷ word "]"
    ∷ blanks
    ∷ word "TRACE"
    ∷ blanks
    ∷ group 1 (ymd "/")
    ∷ blanks
    ∷ group 2 hms
    ∷ blanks
    ∷ group 3 (alt (word "Send") (word "Recv"))
    ∷ word ":"
    ∷ blanks
    ∷ group 4 (times 40 (class is_hex))
    ∷ blanks
    ∷ group 5 (alt (word "ship init") (seq (word "{") (optional any_text)))
    ∷ [])

-- `DLTTextLineRegex`
abbrev pub dlt_text_line_regex : Regexp
dlt_text_line_regex = all_of (
    optional blanks
    ∷ group 1 (plus is_digit)
    ∷ blanks
    ∷ group 2 (ymd "/")
    ∷ blanks
    ∷ group 3 (all_of (hms ∷ word "." ∷ plus is_digit ∷ []))
    ∷ blanks
    ∷ solid
    ∷ blanks
    ∷ solid
    ∷ blanks
    ∷ solid
    ∷ blanks
    ∷ group 4 solid
    ∷ blanks
    ∷ group 5 solid
    ∷ blanks
    ∷ solid
    ∷ blanks
    ∷ group 6 solid
    ∷ blanks
    ∷ solid
    ∷ blanks
    ∷ solid
    ∷ blanks
    ∷ solid
    ∷ blanks
    ∷ word ":"
    ∷ optional blanks
    ∷ group 7 (optional any_text)
    ∷ [])

-- `eebustesterPrefixRegex`, `eebusgoPrefixRegex`, `eebushubPrefixRegex`, `evccPrefixRegex` and
-- `dltTextPrefixRegex`
abbrev pub eebus_tester_prefix_regex : Regexp
eebus_tester_prefix_regex = all_of (word "[" ∷ digits 8 ∷ blanks ∷ hms_ms ∷ word "]" ∷ [])

abbrev pub eebus_go_prefix_regex : Regexp
eebus_go_prefix_regex = all_of (optional (seq (plus is_digit) blanks) ∷ word "[" ∷ hms ∷ [])

abbrev pub eebus_hub_prefix_regex : Regexp
eebus_hub_prefix_regex =
    all_of
      (ymd "-" ∷ blanks ∷ hms ∷ blanks ∷ word "[" ∷ alt (word "Send") (word "Recv") ∷ word "]" ∷ [])

abbrev pub evcc_prefix_regex : Regexp
evcc_prefix_regex = all_of (
    word "[eebus"
    ∷ optional blanks
    ∷ word "]"
    ∷ blanks
    ∷ alt (word "TRACE") (alt (word "DEBUG") (alt (word "INFO") (alt (word "WARN") (word "ERROR"))))
    ∷ blanks
    ∷ ymd "/"
    ∷ [])

abbrev pub dlt_text_prefix_regex : Regexp
dlt_text_prefix_regex = all_of (
    optional blanks
    ∷ plus is_digit
    ∷ blanks
    ∷ ymd "/"
    ∷ blanks
    ∷ hms
    ∷ word "."
    ∷ plus is_digit
    ∷ [])
