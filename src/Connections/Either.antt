-- ===== src/Connections/Either.antt =====
-- Maps that keep one entry for a key and its reverse (internal/api/connections.go: the lookups in
-- `buildConnectionStates`).
use eebus_tracer.Prelude.{
  ◌≡◌, inl, inr, ap, ◌∙◌, true, ◌||◌, List, [], ◌∷◌, ◌++◌, Option, none, some, ◌==◌, Comparable,
  if◌then◌else◌, is_some, Option-cases, arith,
}
use eebus_tracer.Prelude.Maps.{lookup, insert, lookup-insert}
use eebus_tracer.Subscriptions.Tables.{Table, Consistent, insert-Consistent, replace-Consistent}

module _ {K V : Type 0} ⦃e : Comparable K⦄ (swap : K → K) where
  -- The entry under the key, or else under its reverse, is changed; or else a new one is made.
  unfoldable pub update_either : K → V → (V → V) → Table K V → Table K V
  unfolding lookup insert
  update_either k new add t = elim (lookup k t.entries) [
    | some c ↦ record t { entries = insert k (add c) t.entries }
    | none ↦ elim (lookup (swap k) t.entries) [
      | some c ↦ record t { entries = insert (swap k) (add c) t.entries }
      | none ↦ record { entries = insert k (add new) t.entries; order = t.order ++ k ∷ [] }
    ]
  ]

  -- The entry under a key or its reverse.
  abbrev pub either : K → List (K × V) → Option V
  either k m = elim (lookup k m) [ some c ↦ some c | none ↦ lookup (swap k) m ]

  -- No key stands beside its reverse.
  abbrev pub Exclusive : List (K × V) → Type 0
  Exclusive m =
      (k : K) → is_some (lookup k m) ≡ true → is_some (lookup (swap k) m) ≡ true → swap k ≡ k

  abbrev pub or_new : V → Option V → V
  or_new new none = new
  or_new new (some c) = c

  pub either-update_either :
      ((k : K) → swap (swap k) ≡ k)
      → (k j : K) (new : V) (add : V → V) (t : Table K V) → Exclusive t.entries
      → either j (update_either k new add t).entries ≡ (
          if k == j || swap k == j
          then some (add (or_new new (either k t.entries)))
          else either j t.entries)
  unfolding update_either
  either-update_either back k j new add t x = elim (Option-cases (lookup k t.entries)) [
    | inr (c, h) ↦ ground (
      arith,
      h,
      lookup-insert k j (add c) t.entries,
      lookup-insert k (swap j) (add c) t.entries,
      e.equals_iff k j,
      e.equals_iff k (swap j),
      e.equals_iff (swap k) j,
      back j,
      back k,
      x k,
    )
    | inl h ↦ elim (Option-cases (lookup (swap k) t.entries)) [
      | inr (c, g) ↦ ground (
        arith,
        h,
        g,
        lookup-insert (swap k) j (add c) t.entries,
        lookup-insert (swap k) (swap j) (add c) t.entries,
        e.equals_iff k j,
        e.equals_iff (swap k) (swap j),
        e.equals_iff (swap k) j,
        back j,
        back k,
        ap swap,
      )
      | inl g ↦ ground (
        arith,
        h,
        g,
        lookup-insert k j (add new) t.entries,
        lookup-insert k (swap j) (add new) t.entries,
        e.equals_iff k j,
        e.equals_iff k (swap j),
        e.equals_iff (swap k) j,
        back j,
        back k,
      )
    ]
  ]

  pub update_either-Exclusive :
      ((k : K) → swap (swap k) ≡ k)
      → (k : K) (new : V) (add : V → V) (t : Table K V) → Exclusive t.entries
      → Exclusive (update_either k new add t).entries
  unfolding update_either
  update_either-Exclusive back k new add t x q a b = elim (Option-cases (lookup k t.entries)) [
    | inr (c, h) ↦ ground (
      arith,
      h,
      lookup-insert k q (add c) t.entries,
      lookup-insert k (swap q) (add c) t.entries,
      e.equals_iff k q,
      e.equals_iff k (swap q),
      x k,
      x q,
      back q,
      a,
      b,
    )
    | inl h ↦ elim (Option-cases (lookup (swap k) t.entries)) [
      | inr (c, g) ↦ ground (
        arith,
        h,
        g,
        lookup-insert (swap k) q (add c) t.entries,
        lookup-insert (swap k) (swap q) (add c) t.entries,
        e.equals_iff (swap k) q,
        e.equals_iff (swap k) (swap q),
        x (swap k),
        x q,
        back q,
        back k,
        a,
        b,
      )
      | inl g ↦ ground (
        arith,
        h,
        g,
        lookup-insert k q (add new) t.entries,
        lookup-insert k (swap q) (add new) t.entries,
        e.equals_iff k q,
        e.equals_iff k (swap q),
        x q,
        back q,
        back k,
        a,
        b,
      )
    ]
  ]

  pub update_either-Consistent :
      (key_of : V → K) (k : K) (new : V) (add : V → V) (t : Table K V)
      → key_of new ≡ k
      → ((v : V) → key_of (add v) ≡ key_of v)
      → Consistent key_of t
      → Consistent key_of (update_either k new add t)
  unfolding update_either
  update_either-Consistent key_of k new add t own keep c =
      elim (Option-cases (lookup k t.entries)) [
        | inr (v, h) ↦ rw (h, update_either) (replace-Consistent key_of t k v (add v) (keep v) h c)
        | inl h ↦ elim (Option-cases (lookup (swap k) t.entries)) [
          | inr (v, g) ↦
              rw (h, g, update_either) (replace-Consistent key_of t (swap k) v (add v) (keep v) g c)
          | inl g ↦
              rw (h, g, update_either)
                (rw h at (insert-Consistent key_of t k (add new) (keep new ∙ own) c))
        ]
      ]

  pub either-swap :
      ((k : K) → swap (swap k) ≡ k)
      → (k : K) (m : List (K × V)) → Exclusive m
      → either (swap k) m ≡ either k m
  either-swap back k m x = elim (Option-cases (lookup k m)) [
    | inl h ↦ ground (arith, h, back k)
    | inr (c, h) ↦ elim (Option-cases (lookup (swap k) m)) [
      | inl g ↦ ground (arith, h, g, back k)
      | inr (d, g) ↦ ground (arith, h, g, back k, x k)
    ]
  ]
