-- ===== src/Engine.antt =====
-- The capture engine (internal/capture/capture.go, internal/capture/stats.go): `Engine` with the
-- goroutines that run the sources. A source is known by the number of its start. A step is what runs
-- under the engine's mutex once, or changes one counter: the callback in `runSource` takes several, and
-- `Stop` cancels a source after it has released the mutex.
pub mod Sequence
pub mod Orderly
pub mod Overlap
pub mod Counted
use eebus_tracer.Prelude.{
  ℕ, zero, suc, ◌+◌, ◌≡◌, String, Bool, true, false, not, ◌&&◌, List, [], ◌∷◌, ◌++◌, Option, none,
  some, map, length, ◌==◌, nat_eq, string_eq, if◌then◌else◌, ◌⊎◌,
}
use eebus_tracer.Model.{Direction, ShipMsgType, Message}
use eebus_tracer.Parser.Library.{Decoders}
use eebus_tracer.Parser.{parse, hex_encode}

-- `CaptureStats`
pub record CaptureStats : Type 0 where
  pub packets_received : ℕ
  pub packets_parsed : ℕ
  pub parse_errors : ℕ
  pub bytes_received : ℕ
  pub skipped_truncated : ℕ

abbrev pub no_stats : CaptureStats
no_stats = record {
  packets_received = 0;
  packets_parsed = 0;
  parse_errors = 0;
  bytes_received = 0;
  skipped_truncated = 0;
}

-- `Engine`. `cancel` is the start whose context the cancel function ends.
pub record Engine : Type 0 where
  pub cancel : ℕ
  pub target_addr : String
  pub source_type : String
  pub capturing : Bool
  pub trace_id : ℕ
  pub seq_num : ℕ
  pub stats : CaptureStats

-- A source's goroutine: `cancelled` is its context's state, `running` whether `runSource` has not reset
-- `capturing` yet, which it does once `Run` has returned.
pub record Source : Type 0 where
  pub id : ℕ
  pub cancelled : Bool
  pub running : Bool

-- How far a source's goroutine is in the callback of `runSource`: not in it; behind the count of
-- packets or of bytes, with the time and the message; with a numbered message behind the mutex, the
-- count of parsed packets or that of errors.
pub data Stage : Type 0 where
  resting : Stage
  received : ℕ → Message → Stage
  sized : ℕ → Message → Stage
  numbered : Message → Stage
  parsed : Message → Stage
  judged : Message → Stage

-- The engine, every source that was started with the stage of its goroutine, the cancel functions that
-- a `Stop` is about to call, and the messages handed to the repository, the latest last.
pub record System : Type 0 where
  pub engine : Engine
  pub sources : List Source
  pub stages : ℕ → Stage
  pub cancelling : List ℕ
  pub inserted : List Message

-- `NewEngine`
abbrev pub new_system : System
new_system = record {
  engine = record {
    cancel = 0;
    target_addr = "";
    source_type = "";
    capturing = false;
    trace_id = 0;
    seq_num = 0;
    stats = no_stats;
  };
  sources = [];
  stages = λ i. resting;
  cancelling = [];
  inserted = [];
}

pub data Error : Type 0 where
  already_in_progress : Error

-- `StartWithSource`
unfoldable pub start_with_source : ℕ → String → String → System → System × Option Error
start_with_source trace_id name target s =
    if s.engine.capturing then (s, some already_in_progress) else (
      (record s {
        engine = record {
          cancel = length s.sources;
          target_addr = target;
          source_type = name;
          capturing = true;
          trace_id = trace_id;
          seq_num = 0;
          stats = no_stats;
        };
        sources =
            s.sources ++ (record { id = length s.sources; cancelled = false; running = true }) ∷ [];
      }),
      none,
    )

abbrev pub cancel_if : ℕ → Source → Source
cancel_if i c = if c.id == i then record c { cancelled = true } else c

abbrev pub end_if : ℕ → Source → Source
end_if i c = if c.id == i then record c { running = false } else c

-- `Stop` under the mutex: the source that it is going to cancel is noted.
unfoldable pub stop : System → System
stop s = if not s.engine.capturing then s else record s {
  engine = record (s.engine) { capturing = false };
  cancelling = s.cancelling ++ s.engine.cancel ∷ [];
}

abbrev pub without : ℕ → List ℕ → List ℕ
without i [] = []
without i (j ∷ js) = if j == i then without i js else j ∷ without i js

-- The call of `cancel()` in `Stop`, for source `i`.
unfoldable pub cancel_source : ℕ → System → System
cancel_source i s = record s {
  sources = map (cancel_if i) s.sources;
  cancelling = without i s.cancelling;
}

-- The end of `runSource` once source `i` has returned.
unfoldable pub source_end : ℕ → System → System
source_end i s = record s {
  engine = record (s.engine) { capturing = false };
  sources = map (end_if i) s.sources;
}

-- `IncTruncated`
unfoldable pub inc_truncated : System → System
inc_truncated s =
    let stats = s.engine.stats in
    record s {
      engine = record (s.engine) {
        stats = record stats { skipped_truncated = stats.skipped_truncated + 1 };
      };
    }

abbrev pub is_unset : ShipMsgType → Bool
is_unset ShipMsgType.unset = true
is_unset _ = false

abbrev pub is_nil : List ℕ → Bool
is_nil [] = true
is_nil (b ∷ bs) = false

-- The message as the callback of `runSource` completes it, by its trace, sequence number and the time.
unfoldable pub complete : Decoders → ℕ → ℕ → ℕ → Message → Message
unfolding parse
complete lib trace_id seq_num now msg =
    if not (is_nil msg.raw_bytes) && is_unset msg.ship_msg_type
    then record (parse lib msg.raw_bytes trace_id seq_num now) {
      source_addr = msg.source_addr;
      direction = msg.direction;
    }
    else record msg {
      trace_id = trace_id;
      sequence_num = seq_num;
      timestamp = if msg.timestamp == 0 then now else msg.timestamp;
      raw_hex =
          if is_nil msg.raw_hex && not (is_nil msg.raw_bytes)
          then hex_encode msg.raw_bytes
          else msg.raw_hex;
    }

-- `InsertMessage` gives the message its id, or fails, which is only logged.
abbrev pub with_id : Option ℕ → Message → Message
with_id none msg = msg
with_id (some i) msg = record msg { id = i }

abbrev pub set_stage : ℕ → Stage → (ℕ → Stage) → ℕ → Stage
set_stage i st stages j = if j == i then st else stages j

abbrev pub with_stats : CaptureStats → Engine → Engine
with_stats stats e = record e { stats = stats }

-- Source `i` emits a message at time `now`: the callback begins with the count of packets.
unfoldable pub receive : ℕ → ℕ → Message → System → System
receive i now msg s =
    let stats = s.engine.stats in
    record s {
      engine = with_stats (record stats { packets_received = stats.packets_received + 1 }) s.engine;
      stages = set_stage i (received now msg) s.stages;
    }

-- The next part of the callback: the count of bytes; the sequence number, which is taken under the
-- mutex, and the completion by it; the count of parsed packets; that of errors; the insertion.
unfoldable pub advance_at : Decoders → Option ℕ → ℕ → System → Stage → System
unfolding complete
advance_at lib db_id i s resting = s
advance_at lib db_id i s (received now msg) =
    let stats = s.engine.stats in
    record s {
      engine =
          with_stats (record stats { bytes_received = stats.bytes_received + length msg.raw_bytes })
            s.engine;
      stages = set_stage i (sized now msg) s.stages;
    }
advance_at lib db_id i s (sized now msg) =
    let seq_num = s.engine.seq_num + 1 in
    record s {
      engine = record (s.engine) { seq_num = seq_num };
      stages = set_stage i (numbered (complete lib s.engine.trace_id seq_num now msg)) s.stages;
    }
advance_at lib db_id i s (numbered msg) =
    let stats = s.engine.stats in
    record s {
      engine = with_stats (record stats { packets_parsed = stats.packets_parsed + 1 }) s.engine;
      stages = set_stage i (parsed msg) s.stages;
    }
advance_at lib db_id i s (parsed msg) =
    let stats = s.engine.stats in
    record s {
      engine =
          with_stats
            (record stats {
              parse_errors =
                  if msg.parse_error == "" then stats.parse_errors else stats.parse_errors + 1;
            })
            s.engine;
      stages = set_stage i (judged msg) s.stages;
    }
advance_at lib db_id i s (judged msg) = record s {
  stages = set_stage i resting s.stages;
  inserted = s.inserted ++ with_id db_id msg ∷ [];
}

unfoldable pub advance : Decoders → Option ℕ → ℕ → System → System
unfolding advance_at
advance lib db_id i s = advance_at lib db_id i s (s.stages i)

-- A source that has not returned yet, and may emit although it is cancelled.
abbrev pub IsRunning : ℕ → List Source → Type 0
IsRunning i [] = ⊥
IsRunning i (c ∷ cs) = ((c.id ≡ i) × (c.running ≡ true)) ⊎ IsRunning i cs
