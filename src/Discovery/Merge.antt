-- ===== src/Discovery/Merge.antt =====
-- Announcements of one device joined (cmd/eebustracer/devices.go: `mergeDiscoveryEntities`).
use eebus_tracer.Prelude.{
  ℕ, zero, suc, String, not, ◌&&◌, List, [], ◌∷◌, ◌++◌, map, Option, none, some, ◌==◌, nat_eq,
  string_eq, if◌then◌else◌, contains, length,
}
use eebus_tracer.Prelude.Maps.{lookup, insert}
use eebus_tracer.Discovery.Info.{DiscoveryEntity, DiscoveryFeature}
use eebus_tracer.Discovery.{add_to}

-- The loop over the features of an entity, with `featSeen` as the addresses in it.
unfoldable pub merge_features :
    List DiscoveryFeature → List String → DiscoveryEntity → DiscoveryEntity
merge_features [] seen e = e
merge_features (f ∷ fs) seen e =
    if contains seen f.address
    then merge_features fs seen e
    else merge_features fs (f.address ∷ seen) (add_to f e)

abbrev pub feature_addresses : List DiscoveryFeature → List String
feature_addresses fs = map (λ f. f.address) fs

-- An entity that is there already takes what an announced one has beside it.
unfoldable pub merge_into : DiscoveryEntity → DiscoveryEntity → DiscoveryEntity
unfolding merge_features
merge_into ent e =
    let merged = merge_features ent.features (feature_addresses e.features) e in
    if merged.entity_type == "" && not (ent.entity_type == "")
    then record merged { entity_type = ent.entity_type }
    else merged

-- `existing[pos]` is changed; `none` is the panic on an index out of range.
unfoldable pub merge_at : ℕ → DiscoveryEntity → List DiscoveryEntity → Option (List DiscoveryEntity)
unfolding merge_into
merge_at i ent [] = none
merge_at zero ent (e ∷ es) = some (merge_into ent e ∷ es)
merge_at (suc i) ent (e ∷ es) = elim (merge_at i ent es) [ none ↦ none | some rs ↦ some (e ∷ rs) ]

abbrev pub Index : Type 0
Index = List (String × ℕ)

-- The index of the addresses of `existing`, from a position on.
unfoldable pub index_from : ℕ → List DiscoveryEntity → Index → Index
unfolding insert
index_from i [] idx = idx
index_from i (e ∷ es) idx = index_from (suc i) es (insert e.address i idx)

-- The loop over the announced entities.
unfoldable pub merge_loop :
    List DiscoveryEntity → List DiscoveryEntity → Index → Option (List DiscoveryEntity)
unfolding lookup insert merge_at
merge_loop [] existing idx = some existing
merge_loop (ent ∷ incoming) existing idx = elim (lookup ent.address idx) [
  | some pos ↦ elim (merge_at pos ent existing) [
    | none ↦ none
    | some merged ↦ merge_loop incoming merged idx
  ]
  | none ↦ merge_loop incoming (existing ++ ent ∷ []) (insert ent.address (length existing) idx)
]

-- `mergeDiscoveryEntities`
unfoldable pub merge_discovery_entities :
    List DiscoveryEntity → List DiscoveryEntity → Option (List DiscoveryEntity)
unfolding index_from merge_loop
merge_discovery_entities existing incoming = merge_loop incoming existing (index_from 0 existing [])
