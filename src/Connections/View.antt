-- ===== src/Connections/View.antt =====
-- What a list in the entry for a key or its reverse gains from a change of the entry
-- (internal/api/connections.go: the states in `buildConnectionStates`).
use eebus_tracer.Prelude.{
  ◌≡◌, refl, sym, ap, ◌∙◌, Bool, true, false, ◌||◌, List, [], ◌++◌, append-nil, Option, none, some,
  ◌==◌, Comparable, if◌then◌else◌, Bool-cases, inl, inr, arith,
}
use eebus_tracer.Subscriptions.Tables.{Table}
use eebus_tracer.Connections.Either.{
  update_either, either, Exclusive, or_new, either-update_either, either-swap,
}

module _ {K V S : Type 0} ⦃e : Comparable K⦄ (swap : K → K) (list_of : V → List S) where
  abbrev pub list_in : Option V → List S
  list_in none = []
  list_in (some c) = list_of c

  list_of-or_new :
      (new : V) (o : Option V) → list_of new ≡ [] → list_of (or_new swap new o) ≡ list_in o
  list_of-or_new new none h = h
  list_of-or_new new (some c) h = refl

  either-same :
      ((k : K) → swap (swap k) ≡ k)
      → (p k : K) (m : List (K × V)) → Exclusive swap m
      → (p == k || swap p == k) ≡ true
      → either swap p m ≡ either swap k m
  either-same back p k m x h = elim (Bool-cases (p == k)) [
    | inl same ↦ ap (λ q. either swap q m) ((e.equals_iff p k).0 same)
    | inr other ↦
        sym (either-swap swap back p m x)
        ∙ ap (λ q. either swap q m) ((e.equals_iff (swap p) k).0 (ground (arith, other)))
  ]

  list_in-change :
      (b : Bool) (new : V) (add : V → V) (added : List S) (old at_key : Option V)
      → list_of new ≡ []
      → ((c : V) → list_of (add c) ≡ list_of c ++ added)
      → (b ≡ true → old ≡ at_key)
      → list_in (if b then some (add (or_new swap new old)) else at_key)
        ≡ list_in at_key ++ (if b then added else [])
  list_in-change true new add added old at_key empty h same =
      h (or_new swap new old)
      ∙ ap (λ l. l ++ added) (list_of-or_new new old empty ∙ ap list_in (same refl))
  list_in-change false new add added old at_key empty h same = sym (append-nil (list_in at_key))

  -- The list of a pair grows exactly if the change is to this pair, in whichever order.
  pub list_in-update_either :
      ((k : K) → swap (swap k) ≡ k)
      → (p k : K) (new : V) (add : V → V) (added : List S) (t : Table K V)
      → Exclusive swap t.entries
      → list_of new ≡ []
      → ((c : V) → list_of (add c) ≡ list_of c ++ added)
      → list_in (either swap k (update_either swap p new add t).entries)
        ≡ list_in (either swap k t.entries) ++ (if p == k || swap p == k then added else [])
  list_in-update_either back p k new add added t x empty h =
      ap list_in (either-update_either swap back p k new add t x)
      ∙ list_in-change (p == k || swap p == k) new add added (either swap p t.entries)
          (either swap k t.entries) empty h (either-same back p k t.entries x)
