-- ===== src/Dlt/Delivery.antt =====
-- Where the message of a DLT frame comes from (internal/parser/dlt.go:
-- `ExtractEEBusFromDLTPayload`; internal/parser/dltbin.go: `DLTFrameToMessage`).
use eebus_tracer.Prelude.{
  ℕ, ◌+◌, ◌≡◌, refl, Bool, true, false, List, [], Option, none, some, if◌then◌else◌, if_elim, ◌==◌,
  nat_eq, if_both, list_eq, ◌||◌, unless_elim, not, ◌⊎◌, inl, inr, arith,
}
use eebus_tracer.Model.{Direction, Message}
use eebus_tracer.Parser.Library.{Decoders}
use eebus_tracer.Parser.{normalize_eebus_json}
use eebus_tracer.Parser.Messages.{build_message_from_json}
use eebus_tracer.Dlt.Frame.{DltBinaryMessage}
use eebus_tracer.Dlt.CompleteJson.{is_complete_json}
use eebus_tracer.Dlt.Patterns.{send_group, receive_group, from_first, has_text}
use eebus_tracer.Dlt.Extract.{
  DltExtractResult, found, unix_epoch, eebus_ship_frame_prefix, eebus_datagram_prefix,
  dlt_truncated_marker, is_cem, looks_like_eebus_payload, search_anywhere, search_cem,
  extract_eebus_from_dlt_payload, dlt_frame_to_message,
}
use eebus_tracer.Dlt.Suffix.{
  Ends, LeavesEnd, send_group-LeavesEnd, receive_group-LeavesEnd, from_first-LeavesEnd,
}

-- A text that is found, and is not cut off, is the end of the payload.
abbrev FoundIn : List ℕ → Option DltExtractResult → Type 0
FoundIn payload none = Unit
FoundIn payload (some r) = (r.truncated ≡ true) ⊎ Ends payload r.json

FoundIn-elim :
    (s : List ℕ) (o : Option (List ℕ)) (dir : Direction) (rest : Option DltExtractResult)
    → LeavesEnd s o
    → FoundIn s rest
    → FoundIn s (elim o [ some json ↦ found json dir | none ↦ rest ])
FoundIn-elim s none dir rest h k = k
FoundIn-elim s (some json) dir rest h k = inr h

search_anywhere-FoundIn : (s : List ℕ) → FoundIn s (search_anywhere s)
unfolding search_anywhere
search_anywhere-FoundIn s =
    FoundIn-elim s (from_first eebus_ship_frame_prefix s) Direction.unknown _
      (from_first-LeavesEnd eebus_ship_frame_prefix s)
      (FoundIn-elim s (from_first eebus_datagram_prefix s) Direction.unknown none
        (from_first-LeavesEnd eebus_datagram_prefix s) tt)

search_cem-FoundIn : (s : List ℕ) → FoundIn s (search_cem s)
unfolding search_cem
search_cem-FoundIn s =
    FoundIn-elim s (send_group s) Direction.outgoing _ (send_group-LeavesEnd s)
      (FoundIn-elim s (receive_group s) Direction.incoming none (receive_group-LeavesEnd s) tt)

FoundIn-or_else :
    (s : List ℕ) (o rest : Option DltExtractResult)
    → FoundIn s o
    → FoundIn s rest
    → FoundIn s (elim o [ some r ↦ some r | none ↦ rest ])
FoundIn-or_else s none rest h k = k
FoundIn-or_else s (some r) rest h k = h

-- A result is marked as truncated, or it ends a payload without DLT's mark of a truncated message.
abbrev FoundWhole : List ℕ → Option DltExtractResult → Type 0
FoundWhole payload none = Unit
FoundWhole payload (some r) =
    (r.truncated ≡ true) ⊎ (Ends payload r.json × (has_text payload dlt_truncated_marker ≡ false))

FoundIn-FoundWhole :
    (s : List ℕ) (o : Option DltExtractResult)
    → has_text s dlt_truncated_marker ≡ false
    → FoundIn s o
    → FoundWhole s o
FoundIn-FoundWhole s none h f = tt
FoundIn-FoundWhole s (some r) h (inl cut) = inl cut
FoundIn-FoundWhole s (some r) h (inr e) = inr (e, h)

extract_eebus_from_dlt_payload-FoundWhole :
    (apid ctid s : List ℕ) → FoundWhole s (extract_eebus_from_dlt_payload apid ctid s)
unfolding extract_eebus_from_dlt_payload
extract_eebus_from_dlt_payload-FoundWhole apid ctid s =
    if_elim (FoundWhole s) (has_text s dlt_truncated_marker) _ _
      (λ marked. if_both (FoundWhole s) (looks_like_eebus_payload apid ctid s) _ none (inl refl) tt)
      (λ unmarked. FoundIn-FoundWhole s _ unmarked (
        FoundIn-or_else s (if is_cem apid ctid then search_cem s else none) (search_anywhere s)
          (if_both (FoundIn s) (is_cem apid ctid) (search_cem s) none (search_cem-FoundIn s) tt)
          (search_anywhere-FoundIn s)))

-- How a message `m` comes from a frame.
pub record ComesFrom (lib : Decoders) (frame : DltBinaryMessage) (seq_num : ℕ) (m : Message)
    : Type 0 where
  pub json : List ℕ
  pub direction : Direction
  pub from_verbose : frame.verbose ≡ true
  pub unmarked : has_text frame.args dlt_truncated_marker ≡ false
  pub ends : Ends frame.args json
  pub complete : is_complete_json json ≡ true
  pub built :
      m
      ≡ build_message_from_json lib
          (normalize_eebus_json lib json)
          seq_num
          (frame.timestamp + unix_epoch)
          direction
          ""

abbrev pub Delivered : Decoders → DltBinaryMessage → ℕ → Option Message × Bool → Type 0
Delivered lib frame seq_num (none, truncated) = Unit
Delivered lib frame seq_num (some m, truncated) =
    (truncated ≡ false) × ComesFrom lib frame seq_num m

module _ (lib : Decoders) (frame : DltBinaryMessage) (seq_num : ℕ) where
  -- The frame's result by what the search found.
  abbrev deliver : Option DltExtractResult → Option Message × Bool
  deliver none = (none, false)
  deliver (some r) =
      if r.truncated
      then (none, true)
      else if not (is_complete_json r.json)
      then (none, true)
      else (
        some (
            build_message_from_json lib (normalize_eebus_json lib r.json) seq_num
              (frame.timestamp + unix_epoch) r.direction ""),
        false,
      )

  deliver-Delivered :
      (o : Option DltExtractResult)
      → frame.verbose ≡ true
      → FoundWhole frame.args o
      → Delivered lib frame seq_num (deliver o)
  deliver-Delivered none v h = tt
  deliver-Delivered (some r) v h =
      if_elim (Delivered lib frame seq_num) r.truncated _ _ (λ cut. tt)
        (λ whole.
          unless_elim (Delivered lib frame seq_num) (is_complete_json r.json) _ _ (λ broken. tt)
            (λ complete. (
              refl,
              record {
                json = r.json;
                direction = r.direction;
                from_verbose = v;
                unmarked = elim h [ inl cut ↦ absurd (cc) | inr e ↦ e.1 ];
                ends = elim h [ inl cut ↦ absurd (cc) | inr e ↦ e.0 ];
                complete = complete;
                built = refl;
              },
            )))

  -- A message comes from a frame only if that is verbose and its arguments do not hold DLT's mark of
  -- a truncated message, and then it is built from a complete JSON text that ends the arguments, with
  -- the frame's time in nanoseconds since Go's zero time.
  pub dlt_frame_to_message-Delivered :
      Delivered lib frame seq_num (dlt_frame_to_message lib frame seq_num)
  unfolding dlt_frame_to_message
  dlt_frame_to_message-Delivered =
      if_elim (Delivered lib frame seq_num) (not frame.verbose || frame.args == []) _ _ (λ skip. tt)
        (λ run.
          deliver-Delivered (extract_eebus_from_dlt_payload frame.apid frame.ctid frame.args)
            (ground (arith, run))
            (extract_eebus_from_dlt_payload-FoundWhole frame.apid frame.ctid frame.args))
