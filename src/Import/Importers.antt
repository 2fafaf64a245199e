-- ===== src/Import/Importers.antt =====
-- One importer for each text format (internal/store/logimport.go).
use eebus_tracer.Prelude.{
  ℕ, String, List, [], ◌∷◌, Option, none, some, ◌⊎◌, inl, ◌==◌, nat_eq, list_eq, if◌then◌else◌,
}
use eebus_tracer.Model.{Message}
use eebus_tracer.Parser.Library.{Decoders}
use eebus_tracer.Logs.Regexp.{Regexp, Groups, find_submatch}
use eebus_tracer.Logs.Patterns.{
  log_line_regex, eebus_tester_log_regex, eebus_hub_log_regex, evcc_log_regex, dlt_text_line_regex,
}
use eebus_tracer.Import.Lines.{scan_lines}
use eebus_tracer.Import.Progress.{Progress, at_start, Trace, ImportError, finish}
use eebus_tracer.Import.Handlers.{
  log_groups, eebus_tester_groups, eebus_hub_groups, evcc_groups, dlt_text_groups,
}

-- The loop over the lines, and what the importers make of its end and of the scanner's error.
unfoldable pub each_line : (List ℕ → Progress → Progress) → List (List ℕ) → Progress → Progress
each_line step [] p = p
each_line step (line ∷ lines) p = each_line step lines (step line p)

unfoldable pub import_lines :
    (List ℕ → Progress → Progress)
    → String
    → List ℕ
    → String
    → ℕ
    → ImportError ⊎ (Trace × List Message)
import_lines step complaint text name now = elim (scan_lines text) [
  | none ↦ inl ImportError.scan_failed
  | some lines ↦ finish complaint name now (each_line step lines at_start)
]

-- A line that an expression matches, for a handler of its groups.
unfoldable pub matched : (Groups → Progress → Progress) → Option Groups → Progress → Progress
matched handle none p = p
matched handle (some g) p = handle g p

unfoldable pub line_step : Regexp → (Groups → Progress → Progress) → List ℕ → Progress → Progress
line_step r handle line p = if line == [] then p else matched handle (find_submatch r line) p

module _ (lib : Decoders) where
  -- `ImportLogFile`; `base_date` is the start of the current day.
  unfoldable pub import_log_file : ℕ → List ℕ → String → ℕ → ImportError ⊎ (Trace × List Message)
  unfolding import_lines line_step log_groups
  import_log_file base_date =
      import_lines (line_step log_line_regex (log_groups lib base_date)) "no valid log lines found"

  -- `ImportEEBusTesterLogFile`
  unfoldable pub import_eebus_tester_log_file :
      List ℕ → String → ℕ → ImportError ⊎ (Trace × List Message)
  unfolding import_lines line_step eebus_tester_groups
  import_eebus_tester_log_file =
      import_lines (line_step eebus_tester_log_regex (eebus_tester_groups lib))
        "no valid DATAGRAM lines found"

  -- `ImportEEBusHubLogFile`
  unfoldable pub import_eebus_hub_log_file :
      List ℕ → String → ℕ → ImportError ⊎ (Trace × List Message)
  unfolding import_lines line_step eebus_hub_groups
  import_eebus_hub_log_file =
      import_lines (line_step eebus_hub_log_regex (eebus_hub_groups lib))
        "no valid EEBus Hub log lines found"

  -- `ImportEVCCLogFile`
  unfoldable pub import_evcc_log_file : List ℕ → String → ℕ → ImportError ⊎ (Trace × List Message)
  unfolding import_lines line_step evcc_groups
  import_evcc_log_file =
      import_lines (line_step evcc_log_regex (evcc_groups lib)) "no valid evcc log lines found"

  -- `ImportDLTTextLogFile`
  unfoldable pub import_dlt_text_log_file :
      List ℕ → String → ℕ → ImportError ⊎ (Trace × List Message)
  unfolding import_lines line_step dlt_text_groups
  import_dlt_text_log_file =
      import_lines (line_step dlt_text_line_regex (dlt_text_groups lib))
        "no EEBus messages found in DLT text log"
