-- ===== src/UseCases/Announced.antt =====
-- What `DetectUseCases` (internal/analysis/usecases.go) shows of the announcements.
use eebus_tracer.Prelude.{
  ◌≡◌, refl, sym, ◌∙◌, String, List, [], ◌∷◌, ◌++◌, none, some, map, string_eq, pair_eq, Succeeds,
  Succeeds-map, arith,
}
use eebus_tracer.Prelude.Maps.{lookup}
use eebus_tracer.Model.{Message}
use eebus_tracer.Lpc.Report.{DeviceUseCases}
use eebus_tracer.Subscriptions.Tables.{
  Table, no_entries, upsert_all, last_with, no_entries-Consistent, upsert_all-Consistent, Distinct,
}
use eebus_tracer.Subscriptions.Tables.Lookup.{
  entry_with, lookup-upsert_all, Reflects, Consistent-Reflects,
}
use eebus_tracer.UseCases.{
  Announcement, key_of, result_key, device_use_cases, announced, detect_loop, detect_use_cases,
}

-- The announcements of all messages in their order.
abbrev pub all_announced : List Message → List Announcement
all_announced [] = []
all_announced (msg ∷ msgs) = announced msg ++ all_announced msgs

upsert_all-append :
    (xs ys : List Announcement) (t : Table (String × String) DeviceUseCases)
    → upsert_all key_of device_use_cases (xs ++ ys) t
      ≡ upsert_all key_of device_use_cases ys (upsert_all key_of device_use_cases xs t)
unfolding upsert_all
upsert_all-append [] ys t = refl
upsert_all-append (x ∷ xs) ys t = upsert_all-append xs ys _

detect_loop_lem :
    (msgs : List Message) (t : Table (String × String) DeviceUseCases)
    → detect_loop msgs t ≡ upsert_all key_of device_use_cases (all_announced msgs) t
unfolding detect_loop upsert_all
detect_loop_lem [] t = refl
detect_loop_lem (msg ∷ msgs) t =
    detect_loop_lem msgs _ ∙ sym (upsert_all-append (announced msg) (all_announced msgs) t)

-- Each pair of device and actor once, and for each what its last announcement says.
abbrev pub IsDetected : List Message → List DeviceUseCases → Type 0
IsDetected msgs found =
    Distinct (map result_key found)
    × ((k : String × String)
        → entry_with result_key k found ≡ elim (last_with key_of k (all_announced msgs)) [
          | none ↦ none
          | some a ↦ some (device_use_cases a)
        ])

lookup-all_announced :
    (msgs : List Message) (k : String × String)
    → elim (lookup k (upsert_all key_of device_use_cases (all_announced msgs) no_entries).entries) [
      | none ↦ none
      | some d ↦ some d
    ]
      ≡ elim (last_with key_of k (all_announced msgs)) [
        | none ↦ none
        | some a ↦ some (device_use_cases a)
      ]
unfolding lookup
lookup-all_announced msgs k =
    ground (arith, lookup-upsert_all key_of device_use_cases (all_announced msgs) no_entries k)

-- For all messages in their order the detection gives a result without a panic, in which each device
-- and actor stands once, with the use cases and the message of its last announcement.
pub detect_use_cases-IsDetected :
    (msgs : List Message) → Succeeds (IsDetected msgs) (detect_use_cases msgs)
unfolding detect_use_cases
detect_use_cases-IsDetected msgs =
    let t = upsert_all key_of device_use_cases (all_announced msgs) no_entries in
    rw (detect_loop_lem msgs no_entries) (
      Succeeds-map (Reflects result_key result_key (λ d. d) t) (IsDetected msgs) _
        (Consistent-Reflects result_key result_key (λ d. d) t (λ d. refl)
          (upsert_all-Consistent result_key key_of device_use_cases (all_announced msgs) no_entries
            (λ a. refl) (no_entries-Consistent result_key)))
        (λ found r. (r.0, λ k. r.1 k ∙ lookup-all_announced msgs k)))
