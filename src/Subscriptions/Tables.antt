-- ===== src/Subscriptions/Tables.antt =====
-- The tables of the tracker (internal/analysis/subscriptions.go): a map beside the slice of its keys
-- in the order of their first entry, the loops that write to it, and the loop that makes the result.
pub mod Lookup
use mathlib.Core.Path.{subst}
use eebus_tracer.Prelude.{
  ◌≡◌, refl, sym, ap, ◌∙◌, ◌⊎◌, inl, inr, Bool, true, false, List, [], ◌∷◌, ◌++◌, Option, none,
  some, map, ◌==◌, Comparable, if◌then◌else◌, is_some, if_elim, Bool-cases, option_elim, Succeeds,
  contains, arith,
}
use eebus_tracer.Prelude.Maps.{
  keys, lookup, insert, keys-insert, lookup-insert, Entries, Entries-insert, Entries-lookup,
  map_entries, keys-map_entries, lookup-map_entries,
}

pub record Table (K V : Type 0) : Type 0 where
  pub entries : List (K × V)
  pub order : List K

abbrev pub no_entries : {K V : Type 0} → Table K V
no_entries = record { entries = []; order = [] }

module _ {K D V : Type 0} ⦃e : Comparable K⦄ (key : D → K) where
  -- The loops of the snapshot and request cases: each entry is stored under its key.
  unfoldable pub upsert_all : (D → V) → List D → Table K V → Table K V
  unfolding lookup insert
  upsert_all make [] t = t
  upsert_all make (d ∷ ds) t = upsert_all make ds (record {
    entries = insert (key d) (make d) t.entries;
    order = if is_some (lookup (key d) t.entries) then t.order else t.order ++ key d ∷ [];
  })

  -- The loops of the delete cases: the entry found is changed in place.
  unfoldable pub remove_all : (V → V) → List D → Table K V → Table K V
  unfolding lookup insert
  remove_all remove [] t = t
  remove_all remove (d ∷ ds) t = remove_all remove ds (elim (lookup (key d) t.entries) [
    | none ↦ t
    | some existing ↦ record {
      entries = insert (key d) (remove existing) t.entries;
      order = t.order;
    }
  ])

module _ {K D : Type 0} ⦃e : Comparable K⦄ (key : D → K) where
  -- The last of the entries with this key.
  abbrev pub last_with : K → List D → Option D
  last_with k [] = none
  last_with k (d ∷ ds) = elim (last_with k ds) [
    | none ↦ if key d == k then some d else none
    | some later ↦ some later
  ]

-- A loop over the map that changes each value in place.
abbrev pub see_all : {K V : Type 0} → (K → V → V) → Table K V → Table K V
see_all f t = record { entries = map_entries f t.entries; order = t.order }

module _ {K V W : Type 0} ⦃e : Comparable K⦄ where
  -- The loops that make the result; `none` is the panic on a key that is not in the map.
  unfoldable pub collect : (V → W) → List K → List (K × V) → Option (List W)
  unfolding lookup
  collect f [] entries = some []
  collect f (k ∷ ks) entries = elim (lookup k entries) [
    | none ↦ none
    | some v ↦ elim (collect f ks entries) [ none ↦ none | some vs ↦ some (f v ∷ vs) ]
  ]

module _ {K : Type 0} ⦃e : Comparable K⦄ where
  -- No element occurs twice.
  abbrev pub Distinct : List K → Type 0
  Distinct [] = Unit
  Distinct (k ∷ ks) = (contains ks k ≡ false) × Distinct ks

  contains-append :
      (j k : K) (ks : List K) → contains (ks ++ k ∷ []) j ≡ (if contains ks j then true else k == j)
  contains-append j k [] = ground arith
  contains-append j k (i ∷ ks) = ground (arith, contains-append j k ks)

  Distinct-append :
      (k : K) (ks : List K) → contains ks k ≡ false → Distinct ks → Distinct (ks ++ k ∷ [])
  Distinct-append k [] h d = (refl, tt)
  Distinct-append k (j ∷ ks) h d = (
    ground (arith, contains-append j k ks, e.equals_iff j k, e.equals_iff k j, d.0),
    Distinct-append k ks (ground arith) d.1,
  )

  pub contains-keys :
      {V : Type 0} (k : K) (m : List (K × V)) → contains (keys m) k ≡ is_some (lookup k m)
  unfolding lookup
  contains-keys k [] = refl
  contains-keys k ((j, v) ∷ m) = ground (arith, contains-keys k m)

  pub insert-Distinct :
      {V : Type 0} (k : K) (v : V) (m : List (K × V))
      → Distinct (keys m)
      → Distinct (keys (insert k v m))
  insert-Distinct k v m d = subst Distinct (sym (keys-insert k v m)) (
      if_elim Distinct (is_some (lookup k m)) _ _ (λ present. d)
        (λ missing. Distinct-append k (keys m) (contains-keys k m ∙ missing) d))

module _ {K V : Type 0} ⦃e : Comparable K⦄ (key_of : V → K) where
  -- The slice has the keys of the map, each once, and every entry stands under its own key.
  pub record Consistent (t : Table K V) : Type 0 where
    pub order_is_keys : t.order ≡ keys t.entries
    pub keys_distinct : Distinct (keys t.entries)
    pub own_keys : Entries (λ k v. key_of v ≡ k) t.entries

  pub no_entries-Consistent : Consistent no_entries
  no_entries-Consistent = record { order_is_keys = refl; keys_distinct = tt; own_keys = tt }

  pub insert-Consistent :
      (t : Table K V) (k : K) (v : V)
      → key_of v ≡ k
      → Consistent t
      → Consistent (record {
        entries = insert k v t.entries;
        order = if is_some (lookup k t.entries) then t.order else t.order ++ k ∷ [];
      })
  insert-Consistent t k v h c = record {
    order_is_keys =
        ap (λ o. if is_some (lookup k t.entries) then o else o ++ k ∷ []) c.order_is_keys
        ∙ sym (keys-insert k v t.entries);
    keys_distinct = insert-Distinct k v t.entries c.keys_distinct;
    own_keys = Entries-insert (λ j w. key_of w ≡ j) k v t.entries h c.own_keys;
  }

  pub upsert_all-Consistent :
      {D : Type 0} (key : D → K) (make : D → V) (ds : List D) (t : Table K V)
      → ((d : D) → key_of (make d) ≡ key d)
      → Consistent t
      → Consistent (upsert_all key make ds t)
  unfolding upsert_all
  upsert_all-Consistent key make [] t h c = c
  upsert_all-Consistent key make (d ∷ ds) t h c =
      upsert_all-Consistent key make ds _ h (insert-Consistent t (key d) (make d) (h d) c)

  pub replace-Consistent :
      (t : Table K V) (k : K) (old new : V)
      → key_of new ≡ key_of old
      → lookup k t.entries ≡ some old
      → Consistent t
      → Consistent (record { entries = insert k new t.entries; order = t.order })
  replace-Consistent t k old new h at c =
      subst
        (λ b. Consistent (record {
          entries = insert k new t.entries;
          order = if b then t.order else t.order ++ k ∷ [];
        }))
        (ap is_some at)
        (insert-Consistent t k new
          (h ∙ Entries-lookup (λ j w. key_of w ≡ j) k old t.entries c.own_keys at) c)

  pub remove_all-Consistent :
      {D : Type 0} (key : D → K) (remove : V → V) (ds : List D) (t : Table K V)
      → ((v : V) → key_of (remove v) ≡ key_of v)
      → Consistent t
      → Consistent (remove_all key remove ds t)
  unfolding remove_all
  remove_all-Consistent key remove [] t h c = c
  remove_all-Consistent key remove (d ∷ ds) t h c = remove_all-Consistent key remove ds _ h (
      option_elim Consistent (lookup (key d) t.entries) _ _ (λ missing. c)
        (λ v at. replace-Consistent t (key d) v (remove v) (h v) at c))

  Entries-map_entries :
      (f : K → V → V) (m : List (K × V))
      → ((k : K) (v : V) → key_of (f k v) ≡ key_of v)
      → Entries (λ k v. key_of v ≡ k) m
      → Entries (λ k v. key_of v ≡ k) (map_entries f m)
  Entries-map_entries f [] h x = tt
  Entries-map_entries f ((k, v) ∷ m) h x = (h k v ∙ x.0, Entries-map_entries f m h x.1)

  pub see_all-Consistent :
      (f : K → V → V) (t : Table K V)
      → ((k : K) (v : V) → key_of (f k v) ≡ key_of v)
      → Consistent t
      → Consistent (see_all f t)
  see_all-Consistent f t h c = record {
    order_is_keys = c.order_is_keys ∙ sym (keys-map_entries f t.entries);
    keys_distinct = subst Distinct (sym (keys-map_entries f t.entries)) c.keys_distinct;
    own_keys = Entries-map_entries f t.entries h c.own_keys;
  }
