-- ===== src/Subscriptions/Tables/Lookup.antt =====
-- What the loops over the tracker's tables (internal/analysis/subscriptions.go) do to one key.
use mathlib.Core.Path.{subst}
use eebus_tracer.Prelude.{
  ◌≡◌, refl, sym, ◌∙◌, inl, inr, true, List, [], ◌∷◌, ◌++◌, Option, none, some, map, ◌==◌,
  Comparable, if◌then◌else◌, is_some, Option-cases, Succeeds, Succeeds-elim, Succeeds-map,
  is_some-Succeeds, contains, arith,
}
use eebus_tracer.Prelude.Maps.{lookup, insert, lookup-insert, Entries, Entries-lookup}
use eebus_tracer.Subscriptions.Tables.{
  Table, upsert_all, remove_all, last_with, collect, Consistent, contains-keys, Distinct,
}

module _ {K D V : Type 0} ⦃e : Comparable K⦄ (key : D → K) where
  -- The last entry of the key is the one stored.
  pub lookup-upsert_all :
      (make : D → V) (ds : List D) (t : Table K V) (k : K)
      → lookup k (upsert_all key make ds t).entries
        ≡ elim (last_with key k ds) [ none ↦ lookup k t.entries | some d ↦ some (make d) ]
  unfolding upsert_all
  lookup-upsert_all make [] t k = refl
  lookup-upsert_all make (d ∷ ds) t k = ground (
    arith,
    lookup-upsert_all make ds
        (record {
          entries = insert (key d) (make d) t.entries;
          order = if is_some (lookup (key d) t.entries) then t.order else t.order ++ key d ∷ [];
        })
        k,
    lookup-insert (key d) k (make d) t.entries,
  )

  -- A key that is named at all is changed once, where a second change adds nothing.
  pub lookup-remove_all :
      (remove : V → V) (ds : List D) (t : Table K V) (k : K)
      → ((v : V) → remove (remove v) ≡ remove v)
      → lookup k (remove_all key remove ds t).entries ≡ elim (lookup k t.entries) [
        | none ↦ none
        | some v ↦ some (if is_some (last_with key k ds) then remove v else v)
      ]
  unfolding remove_all
  lookup-remove_all remove [] t k h = ground arith
  lookup-remove_all remove (d ∷ ds) t k h = elim (Option-cases (lookup (key d) t.entries)) [
    | inl missing ↦
        ground (arith, missing, lookup-remove_all remove ds t k h, e.equals_iff (key d) k)
    | inr (v, at) ↦ ground (
      arith,
      at,
      lookup-remove_all remove ds
          (record { entries = insert (key d) (remove v) t.entries; order = t.order }) k h,
      lookup-insert (key d) k (remove v) t.entries,
      h v,
      e.equals_iff (key d) k,
    )
  ]

module _ {K W : Type 0} ⦃e : Comparable K⦄ (key_of : W → K) where
  -- The result's entry with a key.
  abbrev pub entry_with : K → List W → Option W
  entry_with k [] = none
  entry_with k (v ∷ vs) = if key_of v == k then some v else entry_with k vs

module _ {K V W : Type 0} ⦃e : Comparable K⦄ (key_of : V → K) (key_out : W → K) where
  -- What `collect` makes of the keys `ks` of a map.
  pub record Collected (f : V → W) (ks : List K) (m : List (K × V)) (vs : List W) : Type 0 where
    pub keys_in_order : map key_out vs ≡ ks
    pub values :
        (k : K)
        → entry_with key_out k vs ≡ (
            if contains ks k then elim (lookup k m) [ none ↦ none | some v ↦ some (f v) ] else none)

  collect-cons :
      (f : V → W) (k : K) (v : V) (ks : List K) (m : List (K × V)) (vs : List W)
      → key_out (f v) ≡ k
      → lookup k m ≡ some v
      → Collected f ks m vs
      → Collected f (k ∷ ks) m (f v ∷ vs)
  collect-cons f k v ks m vs h at c = record {
    keys_in_order = ground (arith, h, c.keys_in_order);
    values = λ j. ground (arith, c.values j, h, at, e.equals_iff k j);
  }

  collect-Collected :
      (f : V → W) (ks : List K) (m : List (K × V))
      → ((v : V) → key_out (f v) ≡ key_of v)
      → Entries (λ k v. key_of v ≡ k) m
      → ((k : K) → contains ks k ≡ true → is_some (lookup k m) ≡ true)
      → Succeeds (Collected f ks m) (collect f ks m)
  unfolding collect
  collect-Collected f [] m h own present = record { keys_in_order = refl; values = λ k. refl }
  collect-Collected f (k ∷ ks) m h own present =
      Succeeds-elim (λ v. lookup k m ≡ some v) (Collected f (k ∷ ks) m) (lookup k m) _
        (is_some-Succeeds (lookup k m) (present k (ground (arith, e.equals_iff k k))))
        (λ v at.
          Succeeds-elim (Collected f ks m) (Collected f (k ∷ ks) m) (collect f ks m) _
            (collect-Collected f ks m h own (λ j found. present j (ground (arith, found))))
            (λ vs c.
              collect-cons f k v ks m vs (h v ∙ Entries-lookup (λ j w. key_of w ≡ j) k v m own at)
                at c))

  -- A list has each key once, and for every key what `f` makes of the table's value.
  abbrev pub Reflects : (V → W) → Table K V → List W → Type 0
  Reflects f t vs =
      Distinct (map key_out vs)
      × ((k : K)
          → entry_with key_out k vs
            ≡ elim (lookup k t.entries) [ none ↦ none | some v ↦ some (f v) ])

  -- The result of a consistent table.
  pub Consistent-Reflects :
      (f : V → W) (t : Table K V)
      → ((v : V) → key_out (f v) ≡ key_of v)
      → Consistent key_of t
      → Succeeds (Reflects f t) (collect f t.order t.entries)
  Consistent-Reflects f t h c =
      Succeeds-map (Collected f t.order t.entries) _ (collect f t.order t.entries)
        (collect-Collected f t.order t.entries h c.own_keys
          (λ k found. ground (arith, found, c.order_is_keys, contains-keys k t.entries)))
        (λ vs x. (
          subst Distinct (sym (x.keys_in_order ∙ c.order_is_keys)) c.keys_distinct,
          λ k. ground (arith, x.values k, c.order_is_keys, contains-keys k t.entries),
        ))
