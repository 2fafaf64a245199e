-- ===== src/Discovery.antt =====
-- What the messages of a trace say of entities and of results (internal/spineparse/spineparse.go:
-- `ExtractCmdArray`, `ParseDiscoveryEntities`, `ExtractResultStatus`). Members are found by their
-- exact names.
pub mod Info
pub mod Slots
pub mod Placed
pub mod Entities
pub mod Merge
pub mod Merged
pub mod Joined
use Prim.Native.String.{◌++◌ as append}
use eebus_tracer.Prelude.{
  ℕ, suc, ◌-◌, ◌^◌, String, Bool, true, false, not, ◌&&◌, List, [], ◌∷◌, ◌++◌, Option, none, some,
  ◌==◌, nat_eq, string_eq, if◌then◌else◌, ltb, length,
}
use eebus_tracer.Prelude.Maps.{lookup, insert}
use eebus_tracer.Prelude.Int.{ℤ, pos, negsuc}
use eebus_tracer.Model.Payload.{Json, Members, find}
use eebus_tracer.Subscriptions.Payload.{read_struct, read_top, cmds_of}
use eebus_tracer.Discovery.Info.{
  DiscoveryEntity, DiscoveryFeature, DiscoveryData, read_discovery, read_int,
}

-- `ExtractCmdArray`; `none` is its error.
unfoldable pub extract_cmd_array : Option Json → Option (List Json)
unfolding find
extract_cmd_array spine_payload = elim (read_top spine_payload) [
  | none ↦ none
  | some top ↦ elim (read_struct (find "datagram" top)) [
    | none ↦ none
    | some datagram ↦ elim (read_struct (find "payload" datagram)) [
      | none ↦ none
      | some payload ↦ some (cmds_of (find "cmd" payload))
    ]
  ]
]

-- A pointer to an element: the array that it stands in and its index.
abbrev pub Slot : Type 0
Slot = ℕ × ℕ

-- The slice `entities` with the number and the capacity of its array, and `entityMap`.
pub record EntityStore : Type 0 where
  pub array : ℕ
  pub capacity : ℕ
  pub entities : List DiscoveryEntity
  pub slots : List (String × Slot)

abbrev pub no_store : EntityStore
no_store = record { array = 0; capacity = 0; entities = []; slots = [] }

-- An append of one element: a full array is left for a new one, whose capacity the runtime chooses.
unfoldable pub add_entity : (ℕ → ℕ) → DiscoveryEntity → EntityStore → EntityStore
unfolding insert
add_entity grow e m =
    let n = length m.entities in
    let has_room = ltb n m.capacity in
    let array = if has_room then m.array else suc m.array in
    record {
      array = array;
      capacity = if has_room then m.capacity else grow n;
      entities = m.entities ++ e ∷ [];
      slots = insert e.address (array, n) m.slots;
    }

unfoldable pub add_entities : (ℕ → ℕ) → List DiscoveryEntity → EntityStore → EntityStore
unfolding add_entity
add_entities grow [] m = m
add_entities grow (e ∷ es) m = add_entities grow es (add_entity grow e m)

abbrev pub add_to : DiscoveryFeature → DiscoveryEntity → DiscoveryEntity
add_to f e = record e { features = e.features ++ f ∷ [] }

-- The write through a pointer, as the slice sees it: the element at index `i` of its array changes if
-- it is the one that is pointed to.
unfoldable pub write : Slot → ℕ → ℕ → DiscoveryFeature → List DiscoveryEntity → List DiscoveryEntity
write p array i f [] = []
write p array i f (e ∷ es) =
    (if p.0 == array && p.1 == i then add_to f e else e) ∷ write p array (suc i) f es

-- The end of the body of the loop over the features, for one at an address.
unfoldable pub add_feature : String → DiscoveryFeature → EntityStore → EntityStore
unfolding lookup write
add_feature address f m = elim (lookup address m.slots) [
  | none ↦ m
  | some p ↦ record m { entities = write p m.array 0 f m.entities }
]

unfoldable pub add_features : List (String × DiscoveryFeature) → EntityStore → EntityStore
unfolding add_feature
add_features [] m = m
add_features ((address, f) ∷ fs) m = add_features fs (add_feature address f m)

-- The entities with their features.
unfoldable pub entities_of : (ℕ → ℕ) → DiscoveryData → List DiscoveryEntity
unfolding add_entities add_features
entities_of grow d = (add_features d.features (add_entities grow d.entities no_store)).entities

module _ (raw_text : Json → String) (grow : ℕ → ℕ) where
  -- The loop over the commands, up to the first with an announcement.
  unfoldable pub entities_in : List Json → List DiscoveryEntity
  unfolding find read_discovery entities_of
  entities_in [] = []
  entities_in (cmd ∷ cmds) = elim (read_struct (some cmd)) [
    | none ↦ entities_in cmds
    | some cmd_map ↦ elim (find "nodeManagementDetailedDiscoveryData" cmd_map) [
      | none ↦ entities_in cmds
      | some raw ↦ elim (read_discovery raw_text raw) [
        | none ↦ entities_in cmds
        | some d ↦ entities_of grow d
      ]
    ]
  ]

  -- `ParseDiscoveryEntities`
  unfoldable pub parse_discovery_entities : Option Json → List DiscoveryEntity
  unfolding extract_cmd_array entities_in
  parse_discovery_entities spine_payload = elim (extract_cmd_array spine_payload) [
    | none ↦ []
    | some cmds ↦ entities_in cmds
  ]

abbrev is_zero : ℤ → Bool
is_zero (pos n) = n == 0
is_zero (negsuc n) = false

-- The loop of `ExtractResultStatus`; the outer `none` is the empty text.
unfoldable pub status_in : List Json → Option Bool
unfolding find read_int
status_in [] = none
status_in (cmd ∷ cmds) = elim (read_struct (some cmd)) [
  | none ↦ status_in cmds
  | some m ↦ elim (find "resultData" m) [
    | none ↦ status_in cmds
    | some rd ↦ elim (read_struct (some rd)) [
      | none ↦ status_in cmds
      | some result ↦ elim (read_int (find "errorNumber" result)) [
        | none ↦ status_in cmds
        | some error_number ↦ some (elim error_number [ none ↦ true | some z ↦ is_zero z ])
      ]
    ]
  ]
]

-- `ExtractResultStatus`: `some true` is "accepted", `some false` "rejected".
unfoldable pub extract_result_status : Option Json → Option Bool
unfolding extract_cmd_array status_in
extract_result_status spine_payload = elim (extract_cmd_array spine_payload) [
  | none ↦ none
  | some cmds ↦ status_in cmds
]
