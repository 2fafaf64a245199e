-- ===== src/UseCases.antt =====
-- The use cases that the devices announce (internal/analysis/usecases.go: `DetectUseCases`).
pub mod Names
pub mod Payload
pub mod Announced
use eebus_tracer.Prelude.{
  ℕ, String, Bool, true, false, not, ◌&&◌, ◌||◌, List, [], ◌∷◌, Option, none, some, ◌==◌, string_eq,
  pair_eq, if◌then◌else◌, map, is_some,
}
use eebus_tracer.Model.{Message}
use eebus_tracer.Lpc.Report.{UseCaseInfo, DeviceUseCases}
use eebus_tracer.Subscriptions.Tables.{Table, no_entries, upsert_all, collect}
use eebus_tracer.UseCases.Payload.{UseCaseInfoGroup, extract_use_case_data}

-- A group of a message with the device that it comes from.
pub record Announcement : Type 0 where
  pub device : String
  pub message_id : ℕ
  pub group : UseCaseInfoGroup

-- `deviceActorKey`
abbrev pub key_of : Announcement → String × String
key_of a = (a.device, a.group.actor)

abbrev pub result_key : DeviceUseCases → String × String
result_key d = (d.device_addr, d.actor)

-- What the map holds for a group's key once the group has been stored.
abbrev pub device_use_cases : Announcement → DeviceUseCases
device_use_cases a = record {
  device_addr = a.device;
  actor = a.group.actor;
  use_cases = a.group.use_cases;
  message_id = a.message_id;
}

-- The groups that the loop takes from a message; it passes over other messages.
unfoldable pub announced : Message → List Announcement
unfolding extract_use_case_data
announced msg =
    let device = if msg.device_source == "" then msg.source_addr else msg.device_source in
    if not (msg.function_set == "NodeManagementUseCaseData")
    then []
    else if not (msg.cmd_classifier == "reply" || msg.cmd_classifier == "notify")
    then []
    else if not (is_some msg.spine_payload)
    then []
    else map (λ g. record { device = device; message_id = msg.id; group = g })
        (extract_use_case_data msg.spine_payload)

-- The loop over the messages.
unfoldable pub detect_loop :
    List Message → Table (String × String) DeviceUseCases → Table (String × String) DeviceUseCases
unfolding announced upsert_all
detect_loop [] t = t
detect_loop (msg ∷ msgs) t = detect_loop msgs (upsert_all key_of device_use_cases (announced msg) t)

-- `DetectUseCases`; `none` is the panic on a key that is not in the map.
unfoldable pub detect_use_cases : List Message → Option (List DeviceUseCases)
unfolding detect_loop collect
detect_use_cases msgs = let t = detect_loop msgs no_entries in collect (λ d. d) t.order t.entries
