-- ===== src/Import/Progress.antt =====
-- What an importer has read so far, and the trace that it makes of it at the end.
use eebus_tracer.Prelude.{
  ℕ, String, List, [], ◌∷◌, ◌++◌, Option, none, some, ◌⊎◌, inl, inr, ◌==◌, nat_eq, if◌then◌else◌,
  length,
}
use eebus_tracer.Model.{Message}

-- The variables of an importer's loop. The zero time is 0; `seq_num` is the counter of messages.
pub record Progress : Type 0 where
  pub messages : List Message
  pub first_ts : ℕ
  pub last_ts : ℕ
  pub seq_num : ℕ
  pub skipped_truncated : ℕ

abbrev pub at_start : Progress
at_start = record { messages = []; first_ts = 0; last_ts = 0; seq_num = 0; skipped_truncated = 0 }

-- `if firstTS.IsZero() { firstTS = ts }; lastTS = ts` and `messages = append(messages, msg)`
unfoldable pub add_message : ℕ → Message → Progress → Progress
add_message ts msg p = record p {
  first_ts = if p.first_ts == 0 then ts else p.first_ts;
  last_ts = ts;
  messages = p.messages ++ msg ∷ [];
}

-- `Trace`, without the id and the description that it gets later.
pub record Trace : Type 0 where
  pub name : String
  pub started_at : ℕ
  pub stopped_at : Option ℕ
  pub message_count : ℕ
  pub created_at : ℕ
  pub skipped_truncated : ℕ

-- The errors of the importers; `wrapped` is one of a reader or decoder behind a text.
pub data ImportError : Type 0 where
  scan_failed : ImportError
  no_messages : String → ImportError
  read_frame : ImportError
  unrecognized : ImportError
  eet_failed : ImportError
  eet_version : ImportError

-- The end of an importer, at time `now`.
unfoldable pub finish : String → String → ℕ → Progress → ImportError ⊎ (Trace × List Message)
finish complaint name now p = elim p.messages [
  | [] ↦ inl (ImportError.no_messages complaint)
  | m ∷ ms ↦ inr (
    record {
      name = name;
      started_at = p.first_ts;
      stopped_at = if p.last_ts == 0 then none else some p.last_ts;
      message_count = length (m ∷ ms);
      created_at = now;
      skipped_truncated = p.skipped_truncated;
    },
    m ∷ ms,
  )
]
