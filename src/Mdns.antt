-- ===== src/Mdns.antt =====
-- The mDNS monitor (internal/mdns/monitor.go): the devices that were discovered, and the sweep that
-- marks them offline. The clock is an argument, in nanoseconds; each operation holds the mutex.
pub mod Presence
use eebus_tracer.Prelude.{
  ℕ, zero, suc, ◌+◌, ◌≤◌, String, Bool, true, false, not, ◌&&◌, List, [], ◌∷◌, ◌++◌, Option, none,
  some, codes, ltb, ◌==◌, nat_eq, string_eq, list_eq, if◌then◌else◌,
}
use eebus_tracer.Prelude.Maps.{lookup, insert, map_values}

abbrev pub offline_threshold : ℕ
offline_threshold = 60_000_000_000

-- `DiscoveredDevice`; what comes from TXT records is a text by its bytes.
pub record DiscoveredDevice : Type 0 where
  pub instance_name : String
  pub host_name : String
  pub addresses : List String
  pub port : ℕ
  pub ski : List ℕ
  pub brand : List ℕ
  pub device_model : List ℕ
  pub device_type : List ℕ
  pub identifier : List ℕ
  pub first_seen_at : ℕ
  pub last_seen_at : ℕ
  pub online : Bool

-- The fields of `zeroconf.ServiceEntry` that are read, with the addresses as texts.
pub record ServiceEntry : Type 0 where
  pub instance_name : String
  pub host_name : String
  pub port : ℕ
  pub text : List (List ℕ)
  pub addr_ipv4 : List String
  pub addr_ipv6 : List String

abbrev pub Devices : Type 0
Devices = List (String × DiscoveredDevice)

-- `strings.IndexByte(entry, '=')`, as the parts in front of the byte and behind it.
unfoldable pub cut_at_equals : List ℕ → Option (List ℕ × List ℕ)
cut_at_equals [] = none
cut_at_equals (c ∷ b) =
    let rest : Option (List ℕ × List ℕ) = elim (cut_at_equals b) [
      | none ↦ none
      | some (k, v) ↦ some (c ∷ k, v)
    ] in
    if c == b'=' then some ([], b) else rest

abbrev pub add_record : Option (List ℕ × List ℕ) → List (List ℕ × List ℕ) → List (List ℕ × List ℕ)
add_record none m = m
add_record (some ([], v)) m = m
add_record (some (c ∷ k, v)) m = insert (c ∷ k) v m

unfoldable pub parse_txt_from : List (List ℕ × List ℕ) → List (List ℕ) → List (List ℕ × List ℕ)
unfolding insert cut_at_equals
parse_txt_from m [] = m
parse_txt_from m (t ∷ ts) = parse_txt_from (add_record (cut_at_equals t) m) ts

-- `parseTXTRecords`
unfoldable pub parse_txt_records : List (List ℕ) → List (List ℕ × List ℕ)
unfolding parse_txt_from
parse_txt_records ts = parse_txt_from [] ts

-- `txtMap[k]`, or what the field has: `if v, ok := txtMap[k]; ok { field = v }`.
unfoldable pub txt_or : List ℕ → List (List ℕ × List ℕ) → List ℕ → List ℕ
unfolding lookup
txt_or k m old = elim (lookup k m) [ none ↦ old | some v ↦ v ]

-- The device as `handleEntry` updates it or makes it.
unfoldable pub seen_device :
    ℕ → ServiceEntry → List (List ℕ × List ℕ) → Option DiscoveredDevice → DiscoveredDevice
unfolding txt_or
seen_device now e txt (some d) = record d {
  host_name = e.host_name;
  addresses = e.addr_ipv4 ++ e.addr_ipv6;
  port = e.port;
  last_seen_at = now;
  online = true;
  ski = txt_or (codes "ski") txt d.ski;
  brand = txt_or (codes "brand") txt d.brand;
  device_model = txt_or (codes "model") txt d.device_model;
  device_type = txt_or (codes "type") txt d.device_type;
  identifier = txt_or (codes "id") txt d.identifier;
}
seen_device now e txt none = record {
  instance_name = e.instance_name;
  host_name = e.host_name;
  addresses = e.addr_ipv4 ++ e.addr_ipv6;
  port = e.port;
  ski = txt_or (codes "ski") txt [];
  brand = txt_or (codes "brand") txt [];
  device_model = txt_or (codes "model") txt [];
  device_type = txt_or (codes "type") txt [];
  identifier = txt_or (codes "id") txt [];
  first_seen_at = now;
  last_seen_at = now;
  online = true;
}

-- `handleEntry`: the devices, and the copy that the callbacks get.
unfoldable pub handle_entry : ℕ → ServiceEntry → Devices → Devices × DiscoveredDevice
unfolding seen_device
handle_entry now e m =
    let d = seen_device now e (parse_txt_records e.text) (lookup e.instance_name m) in
    (insert e.instance_name d m, d)

-- The body of the loop of `sweep`: `LastSeenAt.Before(now - offlineThreshold)`.
unfoldable pub sweep_device : ℕ → DiscoveredDevice → DiscoveredDevice
sweep_device now d =
    if d.online && ltb (d.last_seen_at + offline_threshold) now
    then record d { online = false }
    else d

unfoldable pub sweep : ℕ → Devices → Devices
unfolding sweep_device
sweep now m = map_values (sweep_device now) m

-- A monitor is fed entries and swept, at times that do not fall.
pub data Reach : ℕ → Devices → Type 0 where
  new_monitor : (now : ℕ) → Reach now []
  entry :
      {t : ℕ} {m : Devices} (now : ℕ) (e : ServiceEntry)
      → Reach t m
      → t ≤ now
      → Reach now (handle_entry now e m).0
  swept : {t : ℕ} {m : Devices} (now : ℕ) → Reach t m → t ≤ now → Reach now (sweep now m)
