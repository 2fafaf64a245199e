-- ===== src/Import/Content.antt =====
-- The imports by the content of the file (internal/store/logimport.go).
use eebus_tracer.Prelude.{
  string_eq, ◌≡◌, inl, inr, length, if◌then◌else◌, ℕ, List, [], ◌∷◌, ◌==◌, nat_eq, list_eq, take,
}
use eebus_tracer.Parser.Library.{Decoders}
use eebus_tracer.Logs.Regexp.{Regexp}
use eebus_tracer.Logs.Detect.{LogFormat, detect_log_format}
use eebus_tracer.Import.Progress.{Progress}
use eebus_tracer.Import.Auto.{Imported}
use eebus_tracer.Import.Numbers.{IsNumbered, IsImport}

-- A step that keeps the invariant.
abbrev Keeps : (List ℕ → Progress → Progress) → Type 0
Keeps step = (line : List ℕ) (p : Progress) → IsNumbered p → IsNumbered (step line p)

-- A trace that counts its messages, or an error.
abbrev pub IsCounted : Imported → Type 0
IsCounted (inl e) = Unit
IsCounted (inr (t, ms)) = t.message_count ≡ length ms

-- Of the logs whose messages the importer numbers, more is known: an eebus-go log and an EET file bring
-- their own numbers.
abbrev pub IsOf : LogFormat → Imported → Type 0
IsOf LogFormat.eebus_go r = IsCounted r
IsOf LogFormat.unknown r = IsCounted r
IsOf _ r = IsImport r

module _ (lib : Decoders) (base_date : ℕ) where
  -- What the import of a file is, by its first bytes.
  abbrev pub IsImportOf : List ℕ → Imported → Type 0
  IsImportOf text r =
      if take 4 text == b'D' ∷ b'L' ∷ b'T' ∷ 1 ∷ []
      then IsImport r
      else IsOf (detect_log_format (take 4096 text)) r
