-- ===== src/Import/Handlers.antt =====
-- What the importers do with a line of their format (internal/store/logimport.go), by the groups of the
-- expression that it matches.
use Prim.Native.String.{◌++◌ as append}
use eebus_tracer.Prelude.{
  ℕ, Option, none, some, ◌+◌, String, not, List, [], ◌⊎◌, inl, inr, ◌==◌, nat_eq, list_eq,
  if◌then◌else◌, codes, text_of,
}
use eebus_tracer.Model.{Direction, ShipMsgType, Message}
use eebus_tracer.Parser.Library.{Decoders}
use eebus_tracer.Parser.{normalize_eebus_json, fill_from_spine, zero_message}
use eebus_tracer.Parser.Messages.{
  ShipParseResult, build_message_from_json, fill_peer, parse_ship_from_json,
}
use eebus_tracer.Dlt.CompleteJson.{is_complete_json}
use eebus_tracer.Dlt.Extract.{extract_eebus_from_dlt_payload}
use eebus_tracer.Logs.Regexp.{Groups, group_text}
use eebus_tracer.Logs.Times.{
  atoi_or_zero, parse_log_timestamp, parse_eebus_tester_timestamp, parse_eebus_hub_timestamp,
  parse_evcc_timestamp, parse_dlt_text_timestamp,
}
use eebus_tracer.Logs.Detect.{extract_peer_device}
use eebus_tracer.Import.Progress.{Progress, add_message}

abbrev pub direction_of : List ℕ → List ℕ → Direction
direction_of outgoing word = if word == outgoing then Direction.outgoing else Direction.incoming

-- A message of an EEBus Hub log by the result of `ParseShipFromJSON`.
unfoldable pub fill_from_hub : Message → String ⊎ ShipParseResult → Message
unfolding fill_from_spine
fill_from_hub msg (inl e) = record msg {
  ship_msg_type = ShipMsgType.unknown;
  parse_error = append "SHIP classification: " e;
}
fill_from_hub msg (inr r) =
    let m = record msg { ship_msg_type = r.ship_msg_type; ship_payload = some r.ship_payload } in
    elim r.spine [ some s ↦ fill_from_spine m s | none ↦ m ]

-- The next number is taken; without a time the line is dropped, else its message is added.
unfoldable pub counted : Option ℕ → (ℕ → ℕ → Message) → Progress → Progress
unfolding add_message
counted time message p =
    let p1 : Progress = record p { seq_num = p.seq_num + 1 } in
    elim time [ none ↦ p1 | some ts ↦ add_message ts (message p1.seq_num ts) p1 ]

module _ (lib : Decoders) where
  -- The body of `ImportLogFile` for a line that the expression matches.
  unfoldable pub log_groups : ℕ → Groups → Progress → Progress
  unfolding group_text parse_log_timestamp normalize_eebus_json extract_peer_device
      build_message_from_json add_message
  log_groups base_date g p =
      let numbered = not (group_text 1 g == []) in
      let seq_num = if numbered then atoi_or_zero (group_text 1 g) else p.seq_num + 1 in
      let p1 : Progress = if numbered then p else record p { seq_num = p.seq_num + 1 } in
      elim (parse_log_timestamp base_date (group_text 2 g)) [
        | none ↦ p1
        | some ts ↦
            add_message ts
              (build_message_from_json lib (normalize_eebus_json lib (group_text 5 g)) seq_num ts
                (direction_of (codes "SEND") (group_text 3 g))
                (text_of (extract_peer_device (group_text 4 g))))
              p1
      ]

  -- The message of an eebustester line.
  unfoldable pub eebus_tester_message : Groups → ℕ → ℕ → Message
  unfolding group_text normalize_eebus_json extract_peer_device build_message_from_json
  eebus_tester_message g seq_num ts =
      build_message_from_json lib (normalize_eebus_json lib (group_text 5 g)) seq_num ts
        (direction_of (codes "Send") (group_text 3 g))
        (text_of (extract_peer_device (group_text 4 g)))

  -- The body of `ImportEEBusTesterLogFile`.
  unfoldable pub eebus_tester_groups : Groups → Progress → Progress
  unfolding group_text parse_eebus_tester_timestamp counted eebus_tester_message
  eebus_tester_groups g =
      counted (parse_eebus_tester_timestamp (group_text 1 g) (group_text 2 g))
        (eebus_tester_message g)

  -- The message that an EEBus Hub line starts from.
  abbrev pub blank_entry : List ℕ → ℕ → ℕ → Direction → Message
  blank_entry normalized seq_num ts dir = record zero_message {
    sequence_num = seq_num;
    timestamp = ts;
    direction = dir;
    normalized_json = lib.read_json normalized;
  }

  -- The message of an EEBus Hub line.
  unfoldable pub eebus_hub_message : Groups → ℕ → ℕ → Message
  unfolding group_text normalize_eebus_json parse_ship_from_json fill_from_hub fill_peer
  eebus_hub_message g seq_num ts =
      let dir = direction_of (codes "Send") (group_text 3 g) in
      let normalized = normalize_eebus_json lib (group_text 5 g) in
      fill_peer dir (text_of (group_text 4 g)) (
        fill_from_hub (blank_entry normalized seq_num ts dir) (parse_ship_from_json lib normalized))

  -- The body of `ImportEEBusHubLogFile`.
  unfoldable pub eebus_hub_groups : Groups → Progress → Progress
  unfolding group_text parse_eebus_hub_timestamp counted eebus_hub_message
  eebus_hub_groups g =
      counted (parse_eebus_hub_timestamp (group_text 1 g) (group_text 2 g)) (eebus_hub_message g)

  -- What an evcc line says by its payload.
  unfoldable pub evcc_message : List ℕ → ℕ → ℕ → Direction → Message
  unfolding normalize_eebus_json build_message_from_json
  evcc_message payload seq_num ts dir =
      if payload == codes "ship init"
      then record zero_message {
        sequence_num = seq_num;
        timestamp = ts;
        direction = dir;
        ship_msg_type = ShipMsgType.init;
      }
      else build_message_from_json lib (normalize_eebus_json lib payload) seq_num ts dir ""

  -- The message of an evcc line.
  unfoldable pub evcc_filled : Groups → ℕ → ℕ → Message
  unfolding group_text evcc_message fill_peer
  evcc_filled g seq_num ts =
      let dir = direction_of (codes "Send") (group_text 3 g) in
      fill_peer dir (text_of (group_text 4 g)) (evcc_message (group_text 5 g) seq_num ts dir)

  -- The body of `ImportEVCCLogFile`.
  unfoldable pub evcc_groups : Groups → Progress → Progress
  unfolding group_text parse_evcc_timestamp counted evcc_filled
  evcc_groups g = counted (parse_evcc_timestamp (group_text 1 g) (group_text 2 g)) (evcc_filled g)

  -- The body of `ImportDLTTextLogFile`; the message is numbered once its time is known.
  unfoldable pub dlt_text_groups : Groups → Progress → Progress
  unfolding group_text extract_eebus_from_dlt_payload is_complete_json parse_dlt_text_timestamp
      normalize_eebus_json build_message_from_json add_message
  dlt_text_groups g p =
      let cut : Progress = record p { skipped_truncated = p.skipped_truncated + 1 } in
      elim (extract_eebus_from_dlt_payload (group_text 4 g) (group_text 5 g) (group_text 7 g)) [
        | none ↦ p
        | some r ↦
            if r.truncated
            then cut
            else if not (is_complete_json r.json)
            then cut
            else elim (parse_dlt_text_timestamp (group_text 2 g) (group_text 3 g)) [
              | none ↦ p
              | some ts ↦
                  add_message ts
                    (build_message_from_json lib (normalize_eebus_json lib r.json) (p.seq_num + 1)
                      ts r.direction "")
                    (record p { seq_num = p.seq_num + 1 })
            ]
      ]
