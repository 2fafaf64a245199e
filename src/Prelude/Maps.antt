-- ===== src/Prelude/Maps.antt =====
-- Go's maps as association lists. A new key goes to the end, so `keys` is the order of insertion;
-- the source never relies on the order of a map.
use mathlib.Core.List.{List, [], ◌∷◌, ◌++◌}
use mathlib.Core.Path.{◌≡◌, refl, sym, subst}
use mathlib.Core.Logic.{inl, inr}
use mathlib.Core.Option.{Option, none, some}
use native.Mathlib.Omega.{arith}
use eebus_tracer.Prelude.Tests.{Comparable, ◌==◌, if◌then◌else◌, is_some, if_elim, Bool-cases}

module _ {ℓ κ} {K : Type ℓ} {V : Type κ} where
  abbrev pub keys : List (K × V) → List K
  keys [] = []
  keys ((k, v) ∷ m) = k ∷ keys m

module _ {ℓ κ} {K : Type ℓ} {V : Type κ} ⦃e : Comparable K⦄ where
  -- `m[key]`
  unfoldable pub lookup : K → List (K × V) → Option V
  lookup key [] = none
  lookup key ((at, value) ∷ rest) = if at == key then some value else lookup key rest

  -- `m[key] = value`
  unfoldable pub insert : K → V → List (K × V) → List (K × V)
  insert key value [] = (key, value) ∷ []
  insert key value ((at, old) ∷ rest) =
      if at == key then (at, value) ∷ rest else (at, old) ∷ insert key value rest

  pub lookup-insert :
      (key other : K) (value : V) (rest : List (K × V))
      → lookup other (insert key value rest)
        ≡ (if key == other then some value else lookup other rest)
  unfolding lookup insert
  lookup-insert key other value [] = refl
  lookup-insert key other value ((at, old) ∷ rest) = ground (
    arith,
    lookup-insert key other value rest,
    e.equals_iff at key,
    e.equals_iff key other,
    e.equals_iff at other,
  )

  pub keys-insert :
      (k : K) (v : V) (m : List (K × V))
      → keys (insert k v m) ≡ (if is_some (lookup k m) then keys m else keys m ++ k ∷ [])
  unfolding lookup insert
  keys-insert k v [] = refl
  keys-insert k v ((i, w) ∷ m) = ground (arith, keys-insert k v m)

module _ {ℓ} {K : Type ℓ} {V : Type 0} where
  -- Every entry of a map satisfies `P`.
  abbrev pub Entries : (K → V → Type 0) → List (K × V) → Type 0
  Entries P [] = Unit
  Entries P ((k, v) ∷ m) = P k v × Entries P m

  -- `for _, v := range m { ... }` where the body writes to `*v`.
  abbrev pub map_values : (V → V) → List (K × V) → List (K × V)
  map_values f [] = []
  map_values f ((k, v) ∷ m) = (k, f v) ∷ map_values f m

  pub Entries-map_values :
      (P Q : K → V → Type 0) (f : V → V) (m : List (K × V))
      → ((k : K) (v : V) → P k v → Q k (f v))
      → Entries P m
      → Entries Q (map_values f m)
  Entries-map_values P Q f [] h v = tt
  Entries-map_values P Q f ((k, x) ∷ m) h v = (h k x v.0, Entries-map_values P Q f m h v.1)

  pub Entries-map :
      (P Q : K → V → Type 0) (m : List (K × V))
      → ((k : K) (v : V) → P k v → Q k v)
      → Entries P m
      → Entries Q m
  Entries-map P Q [] h v = tt
  Entries-map P Q ((k, x) ∷ m) h v = (h k x v.0, Entries-map P Q m h v.1)

module _ {ℓ} {K : Type ℓ} {V : Type 0} ⦃e : Comparable K⦄ where
  pub Entries-insert :
      (P : K → V → Type 0) (k : K) (v : V) (m : List (K × V))
      → P k v
      → Entries P m
      → Entries P (insert k v m)
  unfolding insert
  Entries-insert P k v [] h x = (h, tt)
  Entries-insert P k v ((j, w) ∷ m) h x =
      if_elim (Entries P) (j == k) _ _
        (λ same. (subst (λ i. P i v) (sym ((e.equals_iff j k).0 same)) h, x.1))
        (λ other. (x.0, Entries-insert P k v m h x.1))

  pub Entries-lookup :
      (P : K → V → Type 0) (k : K) (v : V) (m : List (K × V))
      → Entries P m
      → lookup k m ≡ some v
      → P k v
  unfolding lookup
  Entries-lookup P k v [] x h = absurd (ground arith)
  Entries-lookup P k v ((j, w) ∷ m) x h = elim (Bool-cases (j == k)) [
    | inl same ↦
        let at : w ≡ v = ground arith in
        subst (λ i. P i v) ((e.equals_iff j k).0 same) (subst (P j) at x.0)
    | inr other ↦ Entries-lookup P k v m x.1 (ground arith)
  ]

  pub lookup-map_values :
      (f : V → V) (k : K) (m : List (K × V))
      → lookup k (map_values f m) ≡ elim (lookup k m) [ none ↦ none | some v ↦ some (f v) ]
  unfolding lookup
  lookup-map_values f k [] = refl
  lookup-map_values f k ((j, v) ∷ m) = ground (arith, lookup-map_values f k m)

module _ {ℓ} {K : Type ℓ} {V : Type 0} where
  -- `for key, v := range m { ... }` where the body writes to `*v` alone.
  abbrev pub map_entries : (K → V → V) → List (K × V) → List (K × V)
  map_entries f [] = []
  map_entries f ((k, v) ∷ m) = (k, f k v) ∷ map_entries f m

  pub keys-map_entries : (f : K → V → V) (m : List (K × V)) → keys (map_entries f m) ≡ keys m
  keys-map_entries f [] = refl
  keys-map_entries f ((k, v) ∷ m) = rw (keys-map_entries f m)

module _ {ℓ} {K : Type ℓ} {V : Type 0} ⦃e : Comparable K⦄ where
  pub lookup-map_entries :
      (f : K → V → V) (key : K) (m : List (K × V))
      → lookup key (map_entries f m) ≡ elim (lookup key m) [ none ↦ none | some v ↦ some (f key v) ]
  unfolding lookup
  lookup-map_entries f key [] = refl
  lookup-map_entries f key ((at, v) ∷ m) =
      ground (arith, e.equals_iff at key, lookup-map_entries f key m)
