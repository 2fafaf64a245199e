-- ===== src/Import/Frames.antt =====
-- The loop over the frames of a binary DLT file (internal/store/logimport.go: `ImportDLTBinaryFile`).
use eebus_tracer.Prelude.{
  ℕ, zero, suc, ◌+◌, ◌≤◌, ◌<◌, ◌≡◌, refl, ap, ◌∙◌, String, Bool, true, false, List, Option, none,
  some, ◌⊎◌, inl, inr, unless_elim, take, length, arith, Succeeds, Succeeds-elim, drop, length-drop,
}
use eebus_tracer.Model.{Message}
use eebus_tracer.Parser.Library.{Decoders}
use eebus_tracer.Parser.{normalize_eebus_json}
use eebus_tracer.Parser.Building.{build_message_from_json-IsBuilt}
use eebus_tracer.Dlt.Bytes.{◌>>=◌, ReadError, Result, ok, err, read_full, u16_be}
use eebus_tracer.Dlt.Frame.{
  DltBinaryMessage, bytes_equal, dlt_storage_magic, read_dlt_message, read_standard_and_payload,
}
use eebus_tracer.Dlt.Frame.Consumption.{read_standard_and_payload-eq-ok, read_full-eq-ok}
use eebus_tracer.Dlt.Extract.{dlt_frame_to_message, unix_epoch}
use eebus_tracer.Dlt.Delivery.{Delivered, dlt_frame_to_message-Delivered}
use eebus_tracer.Import.Progress.{Progress, at_start, ImportError}
use eebus_tracer.Import.Binary.{
  take_frame, each_frame, import_dlt_binary_file, finish_frames, after_error,
}
use eebus_tracer.Import.Numbers.{
  IsNumbered, at_start-IsNumbered, skip-IsNumbered, add_message-IsNumbered, IsImport,
  finish-IsImport,
}

-- What a message from a frame has of the frame.
take_frame-IsNumbered :
    (lib : Decoders) (frame : DltBinaryMessage) (p : Progress) (r : Option Message × Bool)
    → Delivered lib frame (p.seq_num + 1) r
    → IsNumbered p
    → IsNumbered (take_frame (frame.timestamp + unix_epoch) r p)
unfolding take_frame
take_frame-IsNumbered lib frame p (o, true) d v = skip-IsNumbered p (p.skipped_truncated + 1) v
take_frame-IsNumbered lib frame p (none, false) d v = v
take_frame-IsNumbered lib frame p (some m, false) (_, d) v =
    let ts = frame.timestamp + unix_epoch in
    let b =
      build_message_from_json-IsBuilt lib (normalize_eebus_json lib d.json) (p.seq_num + 1) ts
        d.direction "" in
    add_message-IsNumbered p ts m v (ap (λ n. n.sequence_num) d.built ∙ b.filled.seq_num_kept)
      (ap (λ n. n.timestamp) d.built ∙ b.filled.timestamp_kept)

-- A reader's result leaves less than `n` bytes, if it is no error.
abbrev Shorter : {A : Type 0} → ℕ → Result (A × List ℕ) → Type 0
Shorter n (err e) = Unit
Shorter n (ok (a, r)) = length r < n

Shorter->>= :
    {A B : Type 0} (n : ℕ) (m : Result (A × List ℕ)) (f : A × List ℕ → Result (B × List ℕ))
    → ((x : A × List ℕ) → m ≡ ok x → Shorter n (f x))
    → Shorter n (m >>= f)
Shorter->>= n (err e) f h = tt
Shorter->>= n (ok x) f h = h x refl

drop_lt : (k : ℕ) (r : List ℕ) → 0 < k → k ≤ length r → length (drop k r) < length r
drop_lt k r h t = omega (arith, length-drop k r)

frame-Shorter :
    (n : ℕ) (r : List ℕ)
    → length r ≤ n
    → (x : DltBinaryMessage × List ℕ) → read_standard_and_payload r ≡ ok x
    → length x.1 < n
frame-Shorter n r h x e =
    let (four, fits, left) = read_standard_and_payload-eq-ok r x.1 x.0 e in
    omega (arith, drop_lt (u16_be (drop 2 r)) r (omega arith) fits, ap length left)

-- Each frame that is read takes bytes.
read_dlt_message-Shorter : (r : List ℕ) → Shorter (length r) (read_dlt_message r)
unfolding read_dlt_message
read_dlt_message-Shorter r = Shorter->>= (length r) (read_full 16 r) _ (λ s e.
    let (fits, _, left) = read_full-eq-ok 16 r s.0 s.1 e in
    unless_elim (Shorter (length r)) (bytes_equal (take 4 s.0) dlt_storage_magic) _ _ (λ bad. tt)
      (λ magic.
        Shorter->>= (length r) (read_standard_and_payload s.1) _
          (frame-Shorter (length r) s.1 (omega (arith, ap length left, length-drop 16 r)))))

Result-cases :
    {A : Type 0} (m : Result A) → ((e : ReadError) × (m ≡ err e)) ⊎ ((x : A) × (m ≡ ok x))
Result-cases (err e) = inl (e, refl)
Result-cases (ok x) = inr (x, refl)

-- The loop ends with an error, or with variables that satisfy the invariant.
abbrev IsEnd : ImportError ⊎ Progress → Type 0
IsEnd (inl e) = Unit
IsEnd (inr p) = IsNumbered p

after_error-IsEnd : (e : ReadError) (p : Progress) → IsNumbered p → IsEnd (after_error e p)
after_error-IsEnd ReadError.eof p v = v
after_error-IsEnd ReadError.unexpected_eof p v = tt
after_error-IsEnd ReadError.bad_magic p v = tt
after_error-IsEnd ReadError.bogus_length p v = tt

module _ (lib : Decoders) where
  -- With more fuel than bytes the loop ends.
  each_frame-IsEnd :
      (fuel : ℕ) (r : List ℕ) (p : Progress)
      → length r < fuel
      → IsNumbered p
      → Succeeds IsEnd (each_frame lib fuel r p)
  unfolding each_frame
  each_frame-IsEnd zero r p h v = absurd (omega arith)
  each_frame-IsEnd (suc fuel) r p h v = elim (Result-cases (read_dlt_message r)) [
    | inl (e, q) ↦ rw (q, each_frame) (after_error-IsEnd e p v)
    | inr (x, q) ↦
        let less : length x.1 < length r = rw q at (read_dlt_message-Shorter r) in
        rw (q, each_frame)
          (each_frame-IsEnd fuel x.1 _ (omega arith) (
            take_frame-IsNumbered lib x.0 p (dlt_frame_to_message lib x.0 (p.seq_num + 1))
              (dlt_frame_to_message-Delivered lib x.0 (p.seq_num + 1)) v))
  ]

  finish_frames-IsImport :
      (name : String) (now : ℕ) (r : ImportError ⊎ Progress)
      → IsEnd r
      → IsImport (finish_frames name now r)
  unfolding finish_frames
  finish_frames-IsImport name now (inl e) h = tt
  finish_frames-IsImport name now (inr p) h = finish-IsImport _ name now p h

  -- The import of a binary file always comes to an end: the fuel is enough.
  pub import_dlt_binary_file-IsImport :
      (text : List ℕ) (name : String) (now : ℕ)
      → Succeeds IsImport (import_dlt_binary_file lib text name now)
  unfolding import_dlt_binary_file
  import_dlt_binary_file-IsImport text name now =
      Succeeds-elim IsEnd IsImport (each_frame lib (suc (length text)) text at_start) _
        (each_frame-IsEnd (suc (length text)) text at_start (omega arith) at_start-IsNumbered)
        (finish_frames-IsImport name now)
