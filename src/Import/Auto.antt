-- ===== src/Import/Auto.antt =====
-- The choice of an importer by the content (internal/store/logimport.go: `ImportLogFileAutoDetect`,
-- `ImportFileAutoDetect`).
use eebus_tracer.Prelude.{
  ℕ, String, List, [], ◌∷◌, Option, some, ◌⊎◌, inl, ◌==◌, list_eq, nat_eq, if◌then◌else◌, take,
}
use eebus_tracer.Model.{Message}
use eebus_tracer.Parser.Library.{Decoders}
use eebus_tracer.Logs.Detect.{LogFormat, detect_log_format}
use eebus_tracer.Import.Progress.{Trace, ImportError}
use eebus_tracer.Import.Importers.{
  import_log_file, import_eebus_tester_log_file, import_eebus_hub_log_file, import_evcc_log_file,
  import_dlt_text_log_file,
}
use eebus_tracer.Import.Eet.{EetFile, import_trace}
use eebus_tracer.Import.Binary.{import_dlt_binary_file}

abbrev pub Imported : Type 0
Imported = ImportError ⊎ (Trace × List Message)

module _ (lib : Decoders) (base_date : ℕ) where
  -- The switch over the formats, with its default.
  unfoldable pub import_as : LogFormat → Imported → List ℕ → String → ℕ → Imported
  import_as LogFormat.eebus_go other text name now = import_log_file lib base_date text name now
  import_as LogFormat.eebus_tester other text name now =
      import_eebus_tester_log_file lib text name now
  import_as LogFormat.eebus_hub other text name now = import_eebus_hub_log_file lib text name now
  import_as LogFormat.dlt_text other text name now = import_dlt_text_log_file lib text name now
  import_as LogFormat.evcc other text name now = import_evcc_log_file lib text name now
  import_as LogFormat.unknown other text name now = other

  -- `ImportLogFileAutoDetect`
  unfoldable pub import_log_file_auto_detect : List ℕ → String → ℕ → Imported
  unfolding import_as detect_log_format
  import_log_file_auto_detect text name now =
      import_as (detect_log_format (take 4096 text)) (inl ImportError.unrecognized) text name now

  -- `ImportFileAutoDetect`
  unfoldable pub import_file_auto_detect :
      (List ℕ → Option EetFile) → List ℕ → String → ℕ → Option Imported
  unfolding import_trace
  import_file_auto_detect read_eet text name now =
      if take 4 text == b'D' ∷ b'L' ∷ b'T' ∷ 1 ∷ []
      then import_dlt_binary_file lib text name now
      else some (
          import_as (detect_log_format (take 4096 text)) (import_trace read_eet text now) text name
            now)
