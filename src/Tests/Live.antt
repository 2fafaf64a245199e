-- ===== src/Tests/Live.antt =====
-- The hub, the engine, the parser and the monitor at work.
use eebus_tracer.Prelude.{
  Option, Bool, map, ◌++◌, ℕ, ◌+◌, ◌≤◌, ◌<◌, ◌≡◌, refl, inl, inr, true, false, List, [], ◌∷◌, none,
  some, arith, codes, Succeeds, string_eq,
}
use eebus_tracer.Prelude.Maps.{lookup, Entries}
use eebus_tracer.Hub.{
  Hub, new_hub, Event, register, broadcast, visit, broadcast_end, unregister, write, run,
}
use eebus_tracer.Hub.Safety.{AllValid, run_safe}
use eebus_tracer.Parser.Library.{Decoders}
use eebus_tracer.Parser.{zero_message}
use eebus_tracer.Model.{Message}
use eebus_tracer.Engine.{
  System, new_system, start_with_source, stop, cancel_source, source_end, receive, advance,
  advance_at, IsRunning,
}
use eebus_tracer.Engine.Overlap.{source_end-stale}
use eebus_tracer.Engine.Orderly.{
  Inv, Reach, here, next, started, stopped, cancelled, emitted, advanced, Reach-Inv,
}
use eebus_tracer.Mdns.{
  ServiceEntry, DiscoveredDevice, Devices, handle_entry, parse_txt_records, sweep,
  offline_threshold, new_monitor, entry, swept,
}
use eebus_tracer.Mdns.Presence.{IsTracked, Reach-IsTracked, lookup-sweep}

-- Two clients and two broadcasts at once, which come to them in opposite orders; then the first one's
-- connection fails while an event waits in its channel.
abbrev hub_events : List (Event ℕ)
hub_events =
    register
    ∷ register
    ∷ broadcast (some 1)
    ∷ broadcast (some 2)
    ∷ visit 0 0
    ∷ visit 1 1
    ∷ register
    ∷ visit 0 1
    ∷ visit 1 0
    ∷ broadcast_end 0
    ∷ broadcast_end 1
    ∷ write 0 true
    ∷ write 0 false
    ∷ unregister 0
    ∷ broadcast none
    ∷ []

run_safe_example : Succeeds AllValid (run hub_events new_hub)
run_safe_example = run_safe hub_events

abbrev shown : Option (Hub ℕ) → List (List ℕ × Bool)
shown none = []
shown (some h) = map (λ c. (c.written ++ c.buffer, c.registered)) h.clients

-- The register in between has waited for the lock, and the two clients see the events differently.
opposite_orders : shown (run hub_events new_hub) ≡ ((1 ∷ [], false) ∷ (2 ∷ 1 ∷ [], true) ∷ [])
unfolding run
opposite_orders = refl

-- Decoders that read nothing.
abbrev no_decoders : Decoders
no_decoders = record {
  json_from_eebus_json = λ b. b;
  read_json = λ b. none;
  read_error = λ b. "no JSON";
  slice_fields = λ t. [];
  unmarshal_ship = λ t j. none;
  decode_datagram = λ j. inl "no SPINE";
}

abbrev raw_frame : List ℕ
raw_frame = 1 ∷ codes "[{}]"

abbrev raw_message : Message
raw_message = record zero_message { raw_bytes = raw_frame }

-- A capture is stopped and started anew before its source has returned.
abbrev first_start : System
first_start = (start_with_source 7 "udp" "host:4711" new_system).0

abbrev second_start : System
second_start = (start_with_source 8 "udp" "host:4711" (stop first_start)).0

second_start_runs : IsRunning 1 second_start.sources
unfolding start_with_source stop
second_start_runs = inr (inl (refl, refl))

source_end-stale_example :
    let t = source_end 0 second_start in
    (t.engine.capturing ≡ false)
    × IsRunning 1 t.sources
    × (stop t ≡ t)
    × ((start_with_source 9 "tcp" "" t).1 ≡ none)
source_end-stale_example =
    source_end-stale 0 1 9 "tcp" "" second_start (λ e. omega arith) second_start_runs

-- A message is emitted and followed up to its insertion, and a second one up to its number, while the
-- capture is stopped.
abbrev next_part : ℕ → System → System
next_part db_id s = advance no_decoders (some db_id) 0 s

abbrev one_emitted : System
one_emitted = receive 0 5 raw_message first_start

abbrev one_inserted : System
one_inserted = next_part 1 (next_part 1 (next_part 1 (next_part 1 (next_part 1 one_emitted))))

abbrev orderly_system : System
orderly_system =
    cancel_source 0 (next_part 2 (next_part 2 (stop (receive 0 6 raw_message one_inserted))))

first_runs : IsRunning 0 first_start.sources
unfolding start_with_source
first_runs = inl (refl, refl)

one_inserted-Reach : Reach no_decoders one_inserted
unfolding start_with_source receive advance advance_at
one_inserted-Reach =
    next
      (next
        (next
          (next
            (next
              (next (next here (started 7 "udp" "host:4711" _ tt))
                (emitted 5 raw_message 0 _ first_runs refl))
              (advanced (some 1) 0 _ first_runs))
            (advanced (some 1) 0 _ first_runs))
          (advanced (some 1) 0 _ first_runs))
        (advanced (some 1) 0 _ first_runs))
      (advanced (some 1) 0 _ first_runs)

orderly-Reach : Reach no_decoders orderly_system
unfolding start_with_source stop receive advance advance_at cancel_source
orderly-Reach =
    next
      (next
        (next
          (next (next one_inserted-Reach (emitted 6 raw_message 0 _ first_runs refl)) (stopped _))
          (advanced (some 2) 0 _ first_runs))
        (advanced (some 2) 0 _ first_runs))
      (cancelled 0 _ refl)

Reach-Inv_example : Inv orderly_system
Reach-Inv_example = Reach-Inv no_decoders orderly-Reach

abbrev wallbox : ServiceEntry
wallbox = record {
  instance_name = "wallbox";
  host_name = "wb.local.";
  port = 4712;
  text = codes "ski=abc" ∷ codes "=x" ∷ codes "brand" ∷ [];
  addr_ipv4 = "192.0.2.1" ∷ [];
  addr_ipv6 = [];
}

abbrev seen_once : Devices
seen_once = (handle_entry 1000 wallbox []).0

abbrev wallbox_device : DiscoveredDevice
wallbox_device = record {
  instance_name = "wallbox";
  host_name = "wb.local.";
  addresses = "192.0.2.1" ∷ [];
  port = 4712;
  ski = codes "abc";
  brand = [];
  device_model = [];
  device_type = [];
  identifier = [];
  first_seen_at = 1000;
  last_seen_at = 1000;
  online = true;
}

wallbox_known : lookup "wallbox" seen_once ≡ some wallbox_device
unfolding handle_entry parse_txt_records
wallbox_known = refl

Reach-IsTracked_example : Entries (IsTracked 70_000_000_000) (sweep 70_000_000_000 seen_once)
Reach-IsTracked_example =
    Reach-IsTracked
      (swept 70_000_000_000 (entry 1000 wallbox (new_monitor 0) (omega arith)) (omega arith))

lookup-sweep_example :
    (d' : DiscoveredDevice) × (lookup "wallbox" (sweep 70_000_000_000 seen_once) ≡ some d')
    × (d'.online ≡ true → 70_000_000_000 ≤ d'.last_seen_at + offline_threshold)
    × (wallbox_device.last_seen_at + offline_threshold < 70_000_000_000 → d'.online ≡ false)
    × (70_000_000_000 ≤ wallbox_device.last_seen_at + offline_threshold → d' ≡ wallbox_device)
lookup-sweep_example = lookup-sweep 70_000_000_000 "wallbox" seen_once wallbox_device wallbox_known
