-- ===== src/Logs/Detect.antt =====
-- The format of a log file by its first lines, and the peer of a line (internal/parser/logformat.go:
-- `DetectLogFormat`, `ExtractPeerDevice`).
use eebus_tracer.Prelude.{
  ℕ, List, [], ◌∷◌, Option, none, some, ◌==◌, list_eq, nat_eq, if◌then◌else◌, take, codes,
}
use eebus_tracer.Filter.{trim_space}
use eebus_tracer.Dlt.Patterns.{after}
use eebus_tracer.Logs.Regexp.{match_string}
use eebus_tracer.Logs.Times.{split}
use eebus_tracer.Logs.Patterns.{
  eebus_tester_prefix_regex, eebus_go_prefix_regex, eebus_hub_prefix_regex, evcc_prefix_regex,
  dlt_text_prefix_regex,
}

-- `LogFormat`
pub data LogFormat : Type 0 where
  unknown eebus_go eebus_tester eebus_hub dlt_text evcc : LogFormat

-- The format that a line shows, `none` for the next line.
unfoldable pub line_format : List ℕ → Option LogFormat
unfolding match_string
line_format line =
    if line == []
    then none
    else if match_string eebus_hub_prefix_regex line
    then some LogFormat.eebus_hub
    else if match_string dlt_text_prefix_regex line
    then some LogFormat.dlt_text
    else if match_string eebus_tester_prefix_regex line
    then some LogFormat.eebus_tester
    else if match_string evcc_prefix_regex line
    then some LogFormat.evcc
    else if match_string eebus_go_prefix_regex line
    then some LogFormat.eebus_go
    else none

-- The loop of `DetectLogFormat`.
unfoldable pub detect_lines : List (List ℕ) → LogFormat
unfolding line_format trim_space
detect_lines [] = LogFormat.unknown
detect_lines (line ∷ lines) = elim (line_format (trim_space line)) [
  | none ↦ detect_lines lines
  | some f ↦ f
]

-- `DetectLogFormat`
unfoldable pub detect_log_format : List ℕ → LogFormat
unfolding detect_lines split
detect_log_format content = detect_lines (take 50 (split 10 (take 4096 content)))

-- The text in front of the last place where a suffix text begins, if that is not the start.
unfoldable pub cut_last_at : List ℕ → List ℕ → Option (List ℕ)
unfolding after
cut_last_at p [] = none
cut_last_at p (c ∷ s) = elim (cut_last_at p s) [
  | some front ↦ some (c ∷ front)
  | none ↦ elim (after p s) [ some rest ↦ some (c ∷ []) | none ↦ none ]
]

-- `ExtractPeerDevice`
unfoldable pub extract_peer_device : List ℕ → List ℕ
unfolding cut_last_at after
extract_peer_device peer =
    let name : List ℕ = elim (after (codes "ship_") peer) [ some rest ↦ rest | none ↦ peer ] in
    elim (cut_last_at (codes "_0x") name) [ some front ↦ front | none ↦ name ]
