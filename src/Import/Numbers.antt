-- ===== src/Import/Numbers.antt =====
-- The numbers and times of the messages that an importer has read (internal/store/logimport.go).
use eebus_tracer.Prelude.{
  ℕ, ◌+◌, ◌≤◌, ◌<◌, ◌≡◌, refl, ap, String, List, [], ◌∷◌, ◌++◌, none, some, ◌⊎◌, inl, inr, ◌==◌,
  nat_eq, if◌then◌else◌, length, arith, list_eq,
}
use eebus_tracer.Model.{Message}
use eebus_tracer.Import.Progress.{Progress, at_start, add_message, Trace, ImportError, finish}

-- The numbers of the messages rise from above `lo`, and none is above `hi`.
abbrev pub Ascends : ℕ → List Message → ℕ → Type 0
Ascends lo [] hi = lo ≤ hi
Ascends lo (m ∷ ms) hi = (lo < m.sequence_num) × Ascends m.sequence_num ms hi

-- The first time that is not Go's zero time, and the last time.
abbrev pub first_time : List Message → ℕ
first_time [] = 0
first_time (m ∷ ms) = let rest = first_time ms in if m.timestamp == 0 then rest else m.timestamp

abbrev pub last_time : List Message → ℕ
last_time [] = 0
last_time (m ∷ []) = m.timestamp
last_time (m ∷ n ∷ ms) = last_time (n ∷ ms)

Ascends-append :
    (lo hi : ℕ) (ms : List Message) (m : Message)
    → Ascends lo ms hi
    → hi < m.sequence_num
    → Ascends lo (ms ++ m ∷ []) m.sequence_num
Ascends-append lo hi [] m h k = omega arith
Ascends-append lo hi (n ∷ ms) m (h, r) k = (h, Ascends-append n.sequence_num hi ms m r k)

Ascends-le : (lo hi k : ℕ) (ms : List Message) → Ascends lo ms hi → hi ≤ k → Ascends lo ms k
Ascends-le lo hi k [] h r = omega arith
Ascends-le lo hi k (m ∷ ms) (h, t) r = (h, Ascends-le m.sequence_num hi k ms t r)

first_time-append :
    (ms : List Message) (m : Message)
    → first_time (ms ++ m ∷ []) ≡ (if first_time ms == 0 then m.timestamp else first_time ms)
first_time-append [] m = ground arith
first_time-append (n ∷ ms) m = ground (arith, first_time-append ms m)

last_time-append : (ms : List Message) (m : Message) → last_time (ms ++ m ∷ []) ≡ m.timestamp
last_time-append [] m = refl
last_time-append (n ∷ []) m = refl
last_time-append (n ∷ k ∷ ms) m = last_time-append (k ∷ ms) m

abbrev progress : List Message → ℕ → ℕ → ℕ → ℕ → Progress
progress ms first last seq skipped = record {
  messages = ms;
  first_ts = first;
  last_ts = last;
  seq_num = seq;
  skipped_truncated = skipped;
}

-- What holds of an importer's variables between two lines.
pub record IsNumbered (p : Progress) : Type 0 where
  pub ascending : Ascends 0 p.messages p.seq_num
  pub first : p.first_ts ≡ first_time p.messages
  pub last : p.last_ts ≡ last_time p.messages

pub at_start-IsNumbered : IsNumbered at_start
at_start-IsNumbered = record { ascending = omega arith; first = refl; last = refl }

pub count-IsNumbered :
    (p : Progress) → IsNumbered p → IsNumbered (record p { seq_num = p.seq_num + 1 })
count-IsNumbered p v = record {
  ascending = Ascends-le 0 p.seq_num (p.seq_num + 1) p.messages v.ascending (omega arith);
  first = v.first;
  last = v.last;
}

pub skip-IsNumbered :
    (p : Progress) (n : ℕ) → IsNumbered p → IsNumbered (record p { skipped_truncated = n })
skip-IsNumbered p n v = record { ascending = v.ascending; first = v.first; last = v.last }

-- A message with the next number and its own time is added.
pub add_message-IsNumbered :
    (p : Progress) (ts : ℕ) (m : Message)
    → IsNumbered p
    → m.sequence_num ≡ p.seq_num + 1
    → m.timestamp ≡ ts
    → IsNumbered (add_message ts m (record p { seq_num = p.seq_num + 1 }))
unfolding add_message
add_message-IsNumbered p ts m v e t = record {
  ascending = rw (← e) (Ascends-append 0 p.seq_num p.messages m v.ascending (omega arith));
  first = ground (arith, first_time-append p.messages m, v.first, t);
  last = ground (arith, last_time-append p.messages m, t);
}

-- An import: an error, or a trace with the number of its messages and the times of its first and last
-- message, whose messages bear numbers from 1 on that rise.
abbrev pub IsImport : ImportError ⊎ (Trace × List Message) → Type 0
IsImport (inl e) = Unit
IsImport (inr (t, ms)) =
    ((hi : ℕ) × Ascends 0 ms hi)
    × (0 < length ms)
    × (t.message_count ≡ length ms)
    × (t.started_at ≡ first_time ms)
    × (t.stopped_at ≡ (if last_time ms == 0 then none else some (last_time ms)))

-- The end of an importer by its messages.
finish_with :
    (complaint name : String) (now first last seq skipped : ℕ) (ms : List Message)
    → IsNumbered (progress ms first last seq skipped)
    → IsImport (finish complaint name now (progress ms first last seq skipped))
unfolding finish
finish_with complaint name now first last seq skipped [] v = tt
finish_with complaint name now first last seq skipped (m ∷ ms) v = (
  (seq, v.ascending),
  omega arith,
  refl,
  v.first,
  ap (λ t. if t == 0 then none else some t) v.last,
)

pub finish-IsImport :
    (complaint name : String) (now : ℕ) (p : Progress)
    → IsNumbered p
    → IsImport (finish complaint name now p)
finish-IsImport complaint name now p v =
    finish_with complaint name now p.first_ts p.last_ts p.seq_num p.skipped_truncated p.messages v
