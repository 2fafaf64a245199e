-- ===== src/Import/Traces.antt =====
-- The traces that the importers make of log files (internal/store/logimport.go).
use eebus_tracer.Prelude.{
  ℕ, ◌+◌, ◌≡◌, refl, String, List, Option, none, some, ◌⊎◌, inl, inr, ◌==◌, nat_eq, list_eq,
  option_elim, if_both, not, codes, text_of, arith,
}
use eebus_tracer.Model.{Direction, Message}
use eebus_tracer.Parser.Library.{Decoders}
use eebus_tracer.Parser.{normalize_eebus_json, fill_from_spine}
use eebus_tracer.Parser.Messages.{
  ShipParseResult, build_message_from_json, fill_peer, parse_ship_from_json,
}
use eebus_tracer.Parser.Building.{build_message_from_json-IsBuilt}
use eebus_tracer.Logs.Regexp.{Groups, group_text}
use eebus_tracer.Logs.Times.{
  parse_eebus_tester_timestamp, parse_eebus_hub_timestamp, parse_evcc_timestamp,
  parse_dlt_text_timestamp,
}
use eebus_tracer.Dlt.CompleteJson.{is_complete_json}
use eebus_tracer.Dlt.Extract.{extract_eebus_from_dlt_payload}
use eebus_tracer.Import.Progress.{Progress}
use eebus_tracer.Import.Handlers.{
  eebus_tester_groups, eebus_hub_groups, evcc_groups, dlt_text_groups, evcc_message, fill_from_hub,
  blank_entry, counted, eebus_tester_message, eebus_hub_message, evcc_filled, direction_of,
}
use eebus_tracer.Import.Numbers.{
  IsNumbered, count-IsNumbered, skip-IsNumbered, add_message-IsNumbered,
}

-- A message with a number and a time.
abbrev Bears : ℕ → ℕ → Message → Type 0
Bears seq_num ts m = (m.sequence_num ≡ seq_num) × (m.timestamp ≡ ts)

fill_peer-Bears :
    (dir : Direction) (peer : String) (seq_num ts : ℕ) (m : Message)
    → Bears seq_num ts m
    → Bears seq_num ts (fill_peer dir peer m)
unfolding fill_peer
fill_peer-Bears dir peer seq_num ts m h = ground arith

fill_from_hub-Bears :
    (seq_num ts : ℕ) (m : Message) (r : String ⊎ ShipParseResult)
    → Bears seq_num ts m
    → Bears seq_num ts (fill_from_hub m r)
unfolding fill_from_hub fill_from_spine
fill_from_hub-Bears seq_num ts m (inl e) h = h
fill_from_hub-Bears seq_num ts m (inr r) h = ground arith

-- A line counts, and its message is added if its time is understood.
counted-IsNumbered :
    (p : Progress) (time : Option ℕ) (message : ℕ → ℕ → Message)
    → ((seq_num ts : ℕ) → Bears seq_num ts (message seq_num ts))
    → IsNumbered p
    → IsNumbered (counted time message p)
unfolding counted
counted-IsNumbered p none message h v = count-IsNumbered p v
counted-IsNumbered p (some ts) message h v =
    let (n, t) = h (p.seq_num + 1) ts in
    add_message-IsNumbered p ts (message (p.seq_num + 1) ts) v n t

module _ (lib : Decoders) where
  build-Bears :
      (bytes : List ℕ) (seq_num ts : ℕ) (dir : Direction) (peer : String)
      → Bears seq_num ts (build_message_from_json lib bytes seq_num ts dir peer)
  build-Bears bytes seq_num ts dir peer =
      let b = build_message_from_json-IsBuilt lib bytes seq_num ts dir peer in
      (b.filled.seq_num_kept, b.filled.timestamp_kept)

  evcc_message-Bears :
      (payload : List ℕ) (seq_num ts : ℕ) (dir : Direction)
      → Bears seq_num ts (evcc_message lib payload seq_num ts dir)
  unfolding evcc_message
  evcc_message-Bears payload seq_num ts dir =
      if_both (Bears seq_num ts) (payload == codes "ship init") _ _ (refl, refl)
        (build-Bears (normalize_eebus_json lib payload) seq_num ts dir "")

  evcc_filled-Bears :
      (g : Groups) (seq_num ts : ℕ) → Bears seq_num ts (evcc_filled lib g seq_num ts)
  unfolding evcc_filled
  evcc_filled-Bears g seq_num ts =
      let dir = direction_of (codes "Send") (group_text 3 g) in
      fill_peer-Bears dir (text_of (group_text 4 g)) seq_num ts
        (evcc_message lib (group_text 5 g) seq_num ts dir)
        (evcc_message-Bears (group_text 5 g) seq_num ts dir)

  eebus_hub_message-Bears :
      (g : Groups) (seq_num ts : ℕ) → Bears seq_num ts (eebus_hub_message lib g seq_num ts)
  unfolding eebus_hub_message
  eebus_hub_message-Bears g seq_num ts =
      let dir = direction_of (codes "Send") (group_text 3 g) in
      let normalized = normalize_eebus_json lib (group_text 5 g) in
      let msg = blank_entry lib normalized seq_num ts dir in
      let result = parse_ship_from_json lib normalized in
      fill_peer-Bears dir (text_of (group_text 4 g)) seq_num ts (fill_from_hub msg result)
        (fill_from_hub-Bears seq_num ts msg result (refl, refl))

  pub eebus_tester_groups-IsNumbered :
      (g : Groups) (p : Progress) → IsNumbered p → IsNumbered (eebus_tester_groups lib g p)
  unfolding eebus_tester_groups
  eebus_tester_groups-IsNumbered g p =
      counted-IsNumbered p (parse_eebus_tester_timestamp (group_text 1 g) (group_text 2 g))
        (eebus_tester_message lib g)
        (λ seq_num ts. unfold eebus_tester_message in build-Bears _ seq_num ts _ _)

  pub evcc_groups-IsNumbered :
      (g : Groups) (p : Progress) → IsNumbered p → IsNumbered (evcc_groups lib g p)
  unfolding evcc_groups
  evcc_groups-IsNumbered g p =
      counted-IsNumbered p (parse_evcc_timestamp (group_text 1 g) (group_text 2 g))
        (evcc_filled lib g) (evcc_filled-Bears g)

  pub eebus_hub_groups-IsNumbered :
      (g : Groups) (p : Progress) → IsNumbered p → IsNumbered (eebus_hub_groups lib g p)
  unfolding eebus_hub_groups
  eebus_hub_groups-IsNumbered g p =
      counted-IsNumbered p (parse_eebus_hub_timestamp (group_text 1 g) (group_text 2 g))
        (eebus_hub_message lib g) (eebus_hub_message-Bears g)

  pub dlt_text_groups-IsNumbered :
      (g : Groups) (p : Progress) → IsNumbered p → IsNumbered (dlt_text_groups lib g p)
  unfolding dlt_text_groups
  dlt_text_groups-IsNumbered g p v =
      option_elim IsNumbered
        (extract_eebus_from_dlt_payload (group_text 4 g) (group_text 5 g) (group_text 7 g)) _ _
        (λ e. v)
        (λ r e. if_both IsNumbered r.truncated _ _ (skip-IsNumbered p (p.skipped_truncated + 1) v) (
          if_both IsNumbered (not (is_complete_json r.json)) _ _
            (skip-IsNumbered p (p.skipped_truncated + 1) v)
            (option_elim IsNumbered (parse_dlt_text_timestamp (group_text 2 g) (group_text 3 g)) _ _
              (λ t. v)
              (λ ts t.
                let (n, k) =
                  build-Bears (normalize_eebus_json lib r.json) (p.seq_num + 1) ts r.direction "" in
                add_message-IsNumbered p ts _ v n k))))
