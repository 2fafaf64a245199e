-- ===== src/Import/Exported.antt =====
-- What an export to an .eet file brings back (internal/store/fileio.go).
use eebus_tracer.Prelude.{
  ℕ, suc, ◌≡◌, refl, ap, List, [], ◌∷◌, Option, some, inr, map, length, string_eq,
}
use eebus_tracer.Model.{Message}
use eebus_tracer.Import.Progress.{Trace}
use eebus_tracer.Import.Eet.{
  EetFile, exported, imported, export_trace, import_eet_file, import_trace,
}

-- What a message keeps: all but its ids and the raw bytes, whose hex text it keeps.
abbrev pub carried : Message → Message
carried m = record m { id = 0; trace_id = 0; raw_bytes = [] }

map-exported : (ms : List Message) → map imported (map exported ms) ≡ map carried ms
map-exported [] = refl
map-exported (m ∷ ms) = ap (λ l. carried m ∷ l) (map-exported ms)

length-exported : (ms : List Message) → length (map exported ms) ≡ length ms
length-exported [] = refl
length-exported (m ∷ ms) = ap suc (length-exported ms)

abbrev pub trace_of : Trace → ℕ → ℕ → Trace
trace_of t count now = record t { message_count = count; created_at = now; skipped_truncated = 0 }

-- If a text is read as the file that an export made of a trace and its messages, its import gives the
-- messages in their order with all their fields but the ids and the raw bytes, and the trace with its
-- name and times and the number of its messages; the count of truncated frames is not carried over.
pub import_trace-export_trace :
    (read_eet : List ℕ → Option EetFile) (text : List ℕ) (t : Trace) (ms : List Message) (now : ℕ)
    → read_eet text ≡ some (export_trace t ms)
    → import_trace read_eet text now ≡ inr (trace_of t (length ms) now, map carried ms)
unfolding import_trace import_eet_file export_trace
import_trace-export_trace read_eet text t ms now h =
    rw (h, import_trace, length-exported ms, map-exported ms) refl
