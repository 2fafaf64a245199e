-- ===== src/WriteTracking/Effective.antt =====
-- What the effective state (internal/api/writetracking.go) shows of the writes.
use eebus_tracer.Prelude.{
  ◌≡◌, refl, String, List, none, some, map, string_eq, Succeeds, Succeeds-map, arith,
}
use eebus_tracer.Prelude.Maps.{lookup}
use eebus_tracer.Subscriptions.Tables.{
  no_entries, last_with, Consistent, no_entries-Consistent, upsert_all-Consistent, Distinct,
}
use eebus_tracer.Subscriptions.Tables.Lookup.{
  entry_with, lookup-upsert_all, Reflects, Consistent-Reflects,
}
use eebus_tracer.WriteTracking.{
  WriteEntry, EffectiveStateEntry, item_of, state_item, effective_entry, last_by_id,
  build_effective_state,
}

module _ {Value : Type 0} where
  -- Each item once, and for each item id what the last of its writes says.
  abbrev pub IsEffective : List (WriteEntry Value) → List (EffectiveStateEntry Value) → Type 0
  IsEffective entries states =
      Distinct (map state_item states)
      × ((id : String)
          → entry_with state_item id states ≡ elim (last_with item_of id entries) [
            | none ↦ none
            | some e ↦ some (effective_entry e)
          ])

  last_by_id-Consistent :
      (entries : List (WriteEntry Value)) → Consistent item_of (last_by_id entries)
  last_by_id-Consistent entries =
      upsert_all-Consistent item_of item_of (λ e. e) entries no_entries (λ e. refl)
        (no_entries-Consistent item_of)

  lookup-last_by_id :
      (id : String) (entries : List (WriteEntry Value))
      → lookup id (last_by_id entries).entries ≡ last_with item_of id entries
  unfolding lookup
  lookup-last_by_id id entries =
      ground (arith, lookup-upsert_all item_of (λ e. e) entries no_entries id)

  -- For all writes in their order there is an effective state, it has no item id twice, and it shows
  -- for each id what the last write with this id says, whatever the data type.
  pub build_effective_state-IsEffective :
      (entries : List (WriteEntry Value))
      → Succeeds (IsEffective entries) (build_effective_state entries)
  unfolding build_effective_state
  build_effective_state-IsEffective entries =
      Succeeds-map (Reflects item_of state_item effective_entry (last_by_id entries)) _ _
        (Consistent-Reflects item_of state_item effective_entry (last_by_id entries) (λ e. refl)
          (last_by_id-Consistent entries))
        (λ states r. (r.0, λ id. ground (arith, r.1 id, lookup-last_by_id id entries)))
