-- ===== src/Discovery/Placed.antt =====
-- Where the pointers of `entityMap` lead (internal/spineparse/spineparse.go:
-- `ParseDiscoveryEntities`).
use eebus_tracer.Prelude.{
  ℕ, zero, suc, ◌+◌, ◌≡◌, inl, inr, refl, sym, ◌∙◌, String, true, List, [], ◌∷◌, ◌++◌, append-nil,
  append_assoc, Option, none, some, ◌==◌, nat_eq, string_eq, if◌then◌else◌, Bool-cases, ltb, length,
  arith,
}
use eebus_tracer.Prelude.Maps.{lookup, insert, lookup-insert}
use eebus_tracer.Discovery.Info.{DiscoveryEntity}
use eebus_tracer.Discovery.{Slot, EntityStore, no_store, add_entity, add_entities}
use eebus_tracer.Discovery.Slots.{Slots, points}

-- The address of the entity at an index.
abbrev pub address_at : ℕ → List DiscoveryEntity → Option String
address_at i [] = none
address_at zero (e ∷ es) = some e.address
address_at (suc i) (e ∷ es) = address_at i es

-- The map leads from an address to an entity with this address.
abbrev pub IsPlaced : EntityStore → Type 0
IsPlaced m =
    (k : String) (p : Slot) → lookup k m.slots ≡ some p → address_at p.1 m.entities ≡ some k

pub address_at-append :
    (i : ℕ) (es ds : List DiscoveryEntity) (k : String)
    → address_at i es ≡ some k
    → address_at i (es ++ ds) ≡ some k
address_at-append i [] ds k h = ground (arith, h)
address_at-append zero (e ∷ es) ds k h = h
address_at-append (suc i) (e ∷ es) ds k h = address_at-append i es ds k h

pub address_at-length :
    (es : List DiscoveryEntity) (e : DiscoveryEntity)
    → address_at (length es) (es ++ e ∷ []) ≡ some e.address
address_at-length [] e = refl
address_at-length (d ∷ es) e = address_at-length es e

add_entity-IsPlaced :
    (grow : ℕ → ℕ) (e : DiscoveryEntity) (m : EntityStore)
    → IsPlaced m
    → IsPlaced (add_entity grow e m)
unfolding add_entity
add_entity-IsPlaced grow e m v k p h =
    let array = if ltb (length m.entities) m.capacity then m.array else suc m.array in
    elim (Bool-cases (e.address == k)) [
      | inl same ↦ ground (
        arith,
        h,
        same,
        lookup-insert e.address k (array, length m.entities) m.slots,
        string_eq.equals_iff e.address k,
        address_at-length m.entities e,
      )
      | inr other ↦ address_at-append p.1 m.entities (e ∷ []) k (
          v k p (
            ground (arith, h, other, lookup-insert e.address k (array, length m.entities) m.slots)))
    ]

-- The last entity is in the array that the slice has, and the map leads to it.
abbrev pub IsLastPlaced : Slots → ℕ → ℕ → List DiscoveryEntity → Type 0
IsLastPlaced s array i [] = Unit
IsLastPlaced s array i (e ∷ []) = points s array i e.address ≡ true
IsLastPlaced s array i (e ∷ d ∷ es) = IsLastPlaced s array (suc i) (d ∷ es)

append-IsLastPlaced :
    (s : Slots) (array i : ℕ) (es : List DiscoveryEntity) (e : DiscoveryEntity)
    → lookup e.address s ≡ some (array, i + length es)
    → IsLastPlaced s array i (es ++ e ∷ [])
append-IsLastPlaced s array i [] e h = ground (arith, h, nat_eq.equals_iff array array)
append-IsLastPlaced s array i (d ∷ []) e h = ground (arith, h)
append-IsLastPlaced s array i (d ∷ c ∷ es) e h =
    append-IsLastPlaced s array (suc i) (c ∷ es) e (ground (arith, h))

add_entity-IsLastPlaced :
    (grow : ℕ → ℕ) (e : DiscoveryEntity) (m : EntityStore)
    → IsLastPlaced
        (add_entity grow e m).slots
        (add_entity grow e m).array
        0
        (add_entity grow e m).entities
unfolding add_entity
add_entity-IsLastPlaced grow e m =
    let array = if ltb (length m.entities) m.capacity then m.array else suc m.array in
    append-IsLastPlaced (insert e.address (array, length m.entities) m.slots) array 0 m.entities e (
      ground (
        arith,
        lookup-insert e.address e.address (array, length m.entities) m.slots,
        string_eq.equals_iff e.address e.address,
      ))

-- What holds of the store between two entities.
pub record IsStore (m : EntityStore) : Type 0 where
  pub placed : IsPlaced m
  pub last : IsLastPlaced m.slots m.array 0 m.entities

pub add_entities-IsStore :
    (grow : ℕ → ℕ) (es : List DiscoveryEntity) (m : EntityStore)
    → IsStore m
    → IsStore (add_entities grow es m)
unfolding add_entities
add_entities-IsStore grow [] m v = v
add_entities-IsStore grow (e ∷ es) m v =
    add_entities-IsStore grow es (add_entity grow e m) (record {
      placed = add_entity-IsPlaced grow e m v.placed;
      last = add_entity-IsLastPlaced grow e m;
    })

pub add_entities-entities :
    (grow : ℕ → ℕ) (es : List DiscoveryEntity) (m : EntityStore)
    → (add_entities grow es m).entities ≡ m.entities ++ es
unfolding add_entities add_entity
add_entities-entities grow [] m = sym (append-nil m.entities)
add_entities-entities grow (e ∷ es) m =
    add_entities-entities grow es (add_entity grow e m) ∙ append_assoc m.entities (e ∷ []) es

pub no_store-IsStore : IsStore no_store
unfolding lookup
no_store-IsStore = record { placed = λ k p h. absurd (cc); last = tt }
