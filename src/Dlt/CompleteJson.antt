-- ===== src/Dlt/CompleteJson.antt =====
-- `IsCompleteJSON` of internal/parser/dlt.go: the scan that tells a truncated payload from a whole one.
pub mod Grammar
pub mod Prefix
use eebus_tracer.Prelude.{
  ℕ, zero, suc, Bool, true, false, not, ◌&&◌, ◌||◌, List, [], ◌∷◌, Option, none, some, ◌==◌, nat_eq,
  if◌then◌else◌,
}

-- The local variables of the loop. `depth` is an int that never is negative between two bytes.
pub record Scan : Type 0 where
  pub depth : ℕ
  pub in_string : Bool
  pub escape : Bool

abbrev pub scan_start : Scan
scan_start = record { depth = 0; in_string = false; escape = false }

-- `depth--; if depth < 0 { return false }`: `none` is that return.
abbrev pub close_bracket : ℕ → Option Scan
close_bracket zero = none
close_bracket (suc d) = some (record { depth = d; in_string = false; escape = false })

-- The switch outside of a string.
abbrev pub scan_plain : ℕ → ℕ → Option Scan
scan_plain d c =
    if c == b'"'
    then some (record { depth = d; in_string = true; escape = false })
    else if c == b'{' || c == b'['
    then some (record { depth = suc d; in_string = false; escape = false })
    else if c == b'}' || c == b']'
    then close_bracket d
    else some (record { depth = d; in_string = false; escape = false })

-- The switch inside of a string.
abbrev pub scan_string : ℕ → ℕ → Option Scan
scan_string d c =
    if c == b'\\'
    then some (record { depth = d; in_string = true; escape = true })
    else if c == b'"'
    then some (record { depth = d; in_string = false; escape = false })
    else some (record { depth = d; in_string = true; escape = false })

-- One round of the loop.
unfoldable pub scan_byte : Scan → ℕ → Option Scan
scan_byte s c =
    if s.escape
    then some (record s { escape = false })
    else if s.in_string
    then scan_string s.depth c
    else scan_plain s.depth c

unfoldable pub scan : Scan → List ℕ → Option Scan
scan s [] = some s
scan s (c ∷ cs) = elim (scan_byte s c) [ none ↦ none | some t ↦ scan t cs ]

unfoldable pub is_complete : Option Scan → Bool
is_complete none = false
is_complete (some s) = s.depth == 0 && not s.in_string

unfoldable pub is_complete_json : List ℕ → Bool
unfolding scan scan_byte is_complete
is_complete_json b = is_complete (scan scan_start b)
