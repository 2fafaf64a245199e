-- ===== src/Mdns/Presence.antt =====
-- When the monitor (internal/mdns/monitor.go) takes a device for online or offline.
use eebus_tracer.Prelude.{
  ℕ, ◌+◌, ◌≤◌, ◌<◌, ◌≡◌, refl, String, true, false, List, Option, none, some, arith, string_eq,
}
use eebus_tracer.Prelude.Maps.{
  lookup, Entries, Entries-insert, Entries-map, Entries-map_values, Entries-lookup,
  lookup-map_values,
}
use eebus_tracer.Mdns.{
  DiscoveredDevice, ServiceEntry, Devices, seen_device, handle_entry, sweep_device, sweep,
  offline_threshold, parse_txt_records, Reach, new_monitor, entry, swept,
}

-- What holds of the device under key `k` at time `now`.
pub record IsTracked (now : ℕ) (k : String) (d : DiscoveredDevice) : Type 0 where
  pub keyed : d.instance_name ≡ k
  pub seen_order : d.first_seen_at ≤ d.last_seen_at
  pub seen_before : d.last_seen_at ≤ now
  pub offline_late : d.online ≡ false → d.last_seen_at + offline_threshold < now

IsTracked-later :
    (t now : ℕ) (k : String) (d : DiscoveredDevice) → t ≤ now → IsTracked t k d → IsTracked now k d
IsTracked-later t now k d h x = ground (arith, x.offline_late)

seen_device-IsTracked :
    (t now : ℕ) (e : ServiceEntry) (txt : List (List ℕ × List ℕ)) (o : Option DiscoveredDevice)
    → t ≤ now
    → ((d : DiscoveredDevice) → o ≡ some d → IsTracked t e.instance_name d)
    → IsTracked now e.instance_name (seen_device now e txt o)
unfolding seen_device
seen_device-IsTracked t now e txt none h x = ground arith
seen_device-IsTracked t now e txt (some d) h x = ground (arith, x d refl)

sweep_device-IsTracked :
    (t now : ℕ) (k : String) (d : DiscoveredDevice)
    → t ≤ now
    → IsTracked t k d
    → IsTracked now k (sweep_device now d)
unfolding sweep_device
sweep_device-IsTracked t now k d h x = ground (arith, x.offline_late)

-- At any time, each device is kept under its instance name, was seen first before it was seen last,
-- and is marked offline only if it has not been seen for more than the threshold.
pub Reach-IsTracked : {now : ℕ} {m : Devices} → Reach now m → Entries (IsTracked now) m
unfolding handle_entry sweep
Reach-IsTracked (new_monitor now) = tt
Reach-IsTracked (entry {t} {m} now e r h) =
    Entries-insert (IsTracked now) e.instance_name _ m
      (seen_device-IsTracked t now e (parse_txt_records e.text) (lookup e.instance_name m) h
        (λ d. Entries-lookup (IsTracked t) e.instance_name d m (Reach-IsTracked r)))
      (Entries-map (IsTracked t) (IsTracked now) m (λ k d. IsTracked-later t now k d h)
        (Reach-IsTracked r))
Reach-IsTracked (swept {t} {m} now r h) =
    Entries-map_values (IsTracked t) (IsTracked now) (sweep_device now) m
      (λ k d. sweep_device-IsTracked t now k d h) (Reach-IsTracked r)

module _ (now : ℕ) (d : DiscoveredDevice) where
  sweep_device_online :
      (sweep_device now d).online ≡ true
      → now ≤ (sweep_device now d).last_seen_at + offline_threshold
  unfolding sweep_device
  sweep_device_online h = ground arith

  sweep_device_offline :
      d.last_seen_at + offline_threshold < now → (sweep_device now d).online ≡ false
  unfolding sweep_device
  sweep_device_offline h = ground arith

  sweep_device_kept : now ≤ d.last_seen_at + offline_threshold → sweep_device now d ≡ d
  unfolding sweep_device
  sweep_device_kept h = ground arith

-- After a sweep each device is still known. Who is online was seen within the threshold, who was not
-- seen within it is offline, and a device that was seen within the threshold is left as it was.
pub lookup-sweep :
    (now : ℕ) (k : String) (m : Devices) (d : DiscoveredDevice)
    → lookup k m ≡ some d
    → (d' : DiscoveredDevice) × (lookup k (sweep now m) ≡ some d')
      × (d'.online ≡ true → now ≤ d'.last_seen_at + offline_threshold)
      × (d.last_seen_at + offline_threshold < now → d'.online ≡ false)
      × (now ≤ d.last_seen_at + offline_threshold → d' ≡ d)
unfolding sweep
lookup-sweep now k m d h = (
  sweep_device now d,
  rw (lookup-map_values (sweep_device now) k m, h),
  sweep_device_online now d,
  sweep_device_offline now d,
  sweep_device_kept now d,
)
