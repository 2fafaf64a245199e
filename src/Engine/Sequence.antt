-- ===== src/Engine/Sequence.antt =====
-- The numbers that the engine (internal/capture/capture.go) gives to messages, and its statistics.
use mathlib.Core.Path.{subst}
use eebus_tracer.Prelude.{
  ◌⊎◌, inl, inr, Bool-cases, nat_eq, ◌==◌, ℕ, suc, ◌+◌, ◌≤◌, ◌≡◌, ◌∙◌, sym, List, [], ◌∷◌, ◌++◌,
  append-nil, append_assoc, Option, none, some, arith, length, length-append,
}
use eebus_tracer.Model.{Message}
use eebus_tracer.Parser.Library.{Decoders}
use eebus_tracer.Parser.Properties.{parse-Kept}
use eebus_tracer.Engine.{
  Source, Stage, resting, received, sized, numbered, parsed, judged, System, complete, with_id,
  set_stage, receive, advance_at, IsRunning,
}

-- Messages of one trace with the sequence numbers `k`, `k + 1`, and so on.
abbrev pub Numbered : ℕ → ℕ → List Message → Type 0
Numbered trace k [] = Unit
Numbered trace k (m ∷ ms) = (m.trace_id ≡ trace) × (m.sequence_num ≡ k) × Numbered trace (suc k) ms

Numbered-append :
    (trace k : ℕ) (ms : List Message) (m : Message)
    → Numbered trace k ms
    → m.trace_id ≡ trace
    → m.sequence_num ≡ k + length ms
    → Numbered trace k (ms ++ m ∷ [])
Numbered-append trace k [] m h t n = (t, omega arith, tt)
Numbered-append trace k (x ∷ ms) m h t n =
    (h.0, h.1, Numbered-append trace (suc k) ms m h.2 t (omega arith))

-- How much a stage is ahead in a count of the engine.
abbrev pub before_number : Stage → ℕ
before_number (received now msg) = 1
before_number (sized now msg) = 1
before_number _ = 0

abbrev pub before_parsed : Stage → ℕ
before_parsed (numbered msg) = 1
before_parsed _ = 0

abbrev pub before_judged : Stage → ℕ
before_judged (numbered msg) = 1
before_judged (parsed msg) = 1
before_judged _ = 0

-- The message that has a number and is not inserted yet.
abbrev pub in_flight : Stage → List Message
in_flight (numbered msg) = msg ∷ []
in_flight (parsed msg) = msg ∷ []
in_flight (judged msg) = msg ∷ []
in_flight _ = []

-- The messages that were inserted since the last start, `current`, and the one in flight, if there is
-- one, bear its trace and the numbers from 1 up to the engine's; the statistics count them, and a packet
-- that has no number yet.
pub record Counts (s : System) (st : Stage) : Type 0 where
  pub before : List Message
  pub current : List Message
  pub splits : s.inserted ≡ before ++ current
  pub in_order : Numbered s.engine.trace_id 1 (current ++ in_flight st)
  pub counted : length (current ++ in_flight st) ≡ s.engine.seq_num
  pub packets : s.engine.stats.packets_received ≡ s.engine.seq_num + before_number st
  pub all_parsed : s.engine.stats.packets_parsed + before_parsed st ≡ s.engine.seq_num
  pub errors : s.engine.stats.parse_errors + before_judged st ≤ s.engine.seq_num

-- The counts by the stage of the current source; no other source is in its callback, nor is one that
-- has returned.
pub record IsCounted (s : System) : Type 0 where
  pub alive : (j : ℕ) → (s.stages j ≡ resting) ⊎ IsRunning j s.sources
  pub counts : Counts s (s.stages s.engine.cancel)

module _ (lib : Decoders) where
  complete_numbers :
      (trace_id seq_num now : ℕ) (msg : Message)
      → ((complete lib trace_id seq_num now msg).trace_id ≡ trace_id)
        × ((complete lib trace_id seq_num now msg).sequence_num ≡ seq_num)
  unfolding complete
  complete_numbers trace_id seq_num now msg =
      let k = parse-Kept lib msg.raw_bytes trace_id seq_num now in
      ground (arith, k.trace_id_kept, k.sequence_num_kept)

with_id-Numbered :
    (trace k : ℕ) (db_id : Option ℕ) (ms : List Message) (m : Message)
    → Numbered trace k (ms ++ m ∷ [])
    → Numbered trace k (ms ++ with_id db_id m ∷ [])
with_id-Numbered trace k none ms m h = h
with_id-Numbered trace k (some i) [] m h = h
with_id-Numbered trace k (some i) (x ∷ ms) m h =
    (h.0, h.1, with_id-Numbered trace (suc k) (some i) ms m h.2)

-- The stage of a source that the engine's counts go by.
set_stage-same : (i : ℕ) (st : Stage) (stages : ℕ → Stage) → set_stage i st stages i ≡ st
set_stage-same i st stages = ground (arith, nat_eq.equals_iff i i)

pub set_stage-alive :
    (i : ℕ) (st : Stage) (stages : ℕ → Stage) (cs : List Source)
    → IsRunning i cs
    → ((j : ℕ) → (stages j ≡ resting) ⊎ IsRunning j cs)
    → (j : ℕ) → (set_stage i st stages j ≡ resting) ⊎ IsRunning j cs
set_stage-alive i st stages cs r alive j = elim (Bool-cases (j == i)) [
  | inl same ↦ inr (rw ((nat_eq.equals_iff j i).0 same) r)
  | inr other ↦ rw other (alive j)
]

at_stage :
    (i : ℕ) (st : Stage) (stages : ℕ → Stage) (t : System)
    → Counts t st
    → Counts t (set_stage i st stages i)
at_stage i st stages t c = subst (Counts t) (sym (set_stage-same i st stages)) c

module _ (lib : Decoders) (i : ℕ) (s : System) where
  pub receive-Counts :
      (now : ℕ) (msg : Message)
      → Counts s resting
      → Counts (receive i now msg s) (set_stage i (received now msg) s.stages i)
  unfolding receive
  receive-Counts now msg c = at_stage i (received now msg) s.stages _ (record {
    before = c.before;
    current = c.current;
    splits = c.splits;
    in_order = c.in_order;
    counted = c.counted;
    packets = omega (arith, c.packets);
    all_parsed = c.all_parsed;
    errors = c.errors;
  })

  -- Each part of the callback keeps the counts.
  pub advance_at-Counts :
      (db_id : Option ℕ) (st : Stage)
      → s.stages i ≡ st
      → Counts s st
      → Counts (advance_at lib db_id i s st) ((advance_at lib db_id i s st).stages i)
  unfolding advance_at
  advance_at-Counts db_id resting h c = subst (Counts s) (sym h) c
  advance_at-Counts db_id (received now msg) h c = at_stage i (sized now msg) s.stages _ (record {
    before = c.before;
    current = c.current;
    splits = c.splits;
    in_order = c.in_order;
    counted = c.counted;
    packets = c.packets;
    all_parsed = c.all_parsed;
    errors = c.errors;
  })
  advance_at-Counts db_id (sized now msg) h c =
      let m = complete lib s.engine.trace_id (s.engine.seq_num + 1) now msg in
      let (t, n) = complete_numbers lib s.engine.trace_id (s.engine.seq_num + 1) now msg in
      let whole : c.current ++ [] ≡ c.current = append-nil c.current in
      let so_far : length c.current ≡ s.engine.seq_num = rw whole at c.counted in
      at_stage i (numbered m) s.stages _ (record {
        before = c.before;
        current = c.current;
        splits = c.splits;
        in_order =
            Numbered-append s.engine.trace_id 1 c.current m (rw whole at c.in_order) t
              (n ∙ omega (arith, so_far));
        counted = omega (arith, so_far, length-append c.current (m ∷ []));
        packets = omega (arith, c.packets);
        all_parsed = omega (arith, c.all_parsed);
        errors = omega (arith, c.errors);
      })
  advance_at-Counts db_id (numbered msg) h c = at_stage i (parsed msg) s.stages _ (record {
    before = c.before;
    current = c.current;
    splits = c.splits;
    in_order = c.in_order;
    counted = c.counted;
    packets = c.packets;
    all_parsed = omega (arith, c.all_parsed);
    errors = c.errors;
  })
  advance_at-Counts db_id (parsed msg) h c = at_stage i (judged msg) s.stages _ (record {
    before = c.before;
    current = c.current;
    splits = c.splits;
    in_order = c.in_order;
    counted = c.counted;
    packets = c.packets;
    all_parsed = c.all_parsed;
    errors = ground (arith, c.errors);
  })
  advance_at-Counts db_id (judged msg) h c =
      let m = with_id db_id msg in
      let whole : (c.current ++ m ∷ []) ++ [] ≡ c.current ++ m ∷ [] =
        append-nil (c.current ++ m ∷ []) in
      at_stage i resting s.stages _ (record {
        before = c.before;
        current = c.current ++ m ∷ [];
        splits = rw (c.splits) (append_assoc c.before c.current (m ∷ []));
        in_order = rw whole (with_id-Numbered s.engine.trace_id 1 db_id c.current msg c.in_order);
        counted = rw whole (
            omega (
              arith,
              c.counted,
              length-append c.current (m ∷ []),
              length-append c.current (msg ∷ []),
            ));
        packets = c.packets;
        all_parsed = c.all_parsed;
        errors = c.errors;
      })
