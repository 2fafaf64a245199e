-- ===== src/Import/Binary.antt =====
-- Binary DLT files (internal/store/logimport.go: `ImportDLTBinaryFile`).
use eebus_tracer.Prelude.{
  ℕ, zero, suc, ◌+◌, String, Bool, true, false, List, Option, none, some, ◌⊎◌, inl, inr, length,
}
use eebus_tracer.Model.{Message}
use eebus_tracer.Parser.Library.{Decoders}
use eebus_tracer.Dlt.Bytes.{ReadError, ok, err}
use eebus_tracer.Dlt.Frame.{read_dlt_message}
use eebus_tracer.Dlt.Extract.{dlt_frame_to_message, unix_epoch}
use eebus_tracer.Import.Progress.{Progress, at_start, add_message, Trace, ImportError, finish}

-- One frame: it is truncated, it has no message, or its message gets the next number.
unfoldable pub take_frame : ℕ → Option Message × Bool → Progress → Progress
unfolding add_message
take_frame ts (o, true) p = record p { skipped_truncated = p.skipped_truncated + 1 }
take_frame ts (none, false) p = p
take_frame ts (some msg, false) p = add_message ts msg (record p { seq_num = p.seq_num + 1 })

-- `err == io.EOF` ends the loop, another error the import.
abbrev pub after_error : ReadError → Progress → ImportError ⊎ Progress
after_error ReadError.eof p = inr p
after_error _ p = inl ImportError.read_frame

-- The loop over the frames of a reader, on fuel; `none` is the want of fuel.
unfoldable pub each_frame : Decoders → ℕ → List ℕ → Progress → Option (ImportError ⊎ Progress)
unfolding read_dlt_message dlt_frame_to_message take_frame
each_frame lib zero r p = none
each_frame lib (suc fuel) r p = elim (read_dlt_message r) [
  | err e ↦ some (after_error e p)
  | ok found ↦ each_frame lib fuel found.1 (
      take_frame (found.0.timestamp + unix_epoch) (dlt_frame_to_message lib found.0 (p.seq_num + 1))
        p)
]

-- What follows the loop.
unfoldable pub finish_frames :
    String → ℕ → ImportError ⊎ Progress → ImportError ⊎ (Trace × List Message)
unfolding finish
finish_frames name now (inl e) = inl e
finish_frames name now (inr p) = finish "no EEBus messages found in DLT binary file" name now p

-- `ImportDLTBinaryFile`; each frame takes bytes, so more fuel than bytes is enough.
unfoldable pub import_dlt_binary_file :
    Decoders → List ℕ → String → ℕ → Option (ImportError ⊎ (Trace × List Message))
unfolding each_frame finish_frames
import_dlt_binary_file lib text name now = elim (each_frame lib (suc (length text)) text at_start) [
  | none ↦ none
  | some r ↦ some (finish_frames name now r)
]
