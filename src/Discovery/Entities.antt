-- ===== src/Discovery/Entities.antt =====
-- The features that the entities get (internal/spineparse/spineparse.go: `ParseDiscoveryEntities`).
use mathlib.Core.Path.{subst}
use eebus_tracer.Prelude.{
  ℕ, suc, ◌+◌, ◌≡◌, ◌⊎◌, inl, inr, refl, ap, ◌∙◌, String, Bool, true, false, List, [], ◌∷◌,
  append-nil, some, ◌==◌, nat_eq, string_eq, if◌then◌else◌, Option-cases, arith,
}
use eebus_tracer.Prelude.Maps.{lookup}
use eebus_tracer.Discovery.Info.{DiscoveryEntity, DiscoveryFeature, DiscoveryData}
use eebus_tracer.Discovery.{no_store, add_entities, entities_of}
use eebus_tracer.Discovery.Slots.{
  Slots, Features, points, hits, with_more, attach, add_features-attach,
}
use eebus_tracer.Discovery.Placed.{
  address_at, IsLastPlaced, add_entities-IsStore, add_entities-entities, no_store-IsStore,
}

-- The features that are announced for an address, in their order.
abbrev pub features_at : String → Features → List DiscoveryFeature
features_at address fs = hits (λ k. k == address) fs

abbrev pub HasAll : Features → DiscoveryEntity → DiscoveryEntity → Type 0
HasAll fs e r = r ≡ with_more (features_at e.address fs) e

-- Each entity has all the features that are announced for its address or none, and the last has all.
abbrev pub Shows : Features → List DiscoveryEntity → List DiscoveryEntity → Type 0
Shows fs [] rs = rs ≡ []
Shows fs (e ∷ es) [] = ⊥
Shows fs (e ∷ []) (r ∷ rs) = HasAll fs e r × (rs ≡ [])
Shows fs (e ∷ d ∷ es) (r ∷ rs) = (HasAll fs e r ⊎ (r ≡ e)) × Shows fs (d ∷ es) rs

hits-known :
    (at : String → Bool) (a : String) (fs : Features)
    → ((k : String) → at k ≡ true → k ≡ a)
    → hits at fs ≡ (if at a then features_at a fs else [])
hits-known at a [] only = ground (arith)
hits-known at a ((k, f) ∷ fs) only =
    ground (arith, only k, hits-known at a fs only, string_eq.equals_iff k a)

points_known :
    (s : Slots) (array i : ℕ) (k : String)
    → points s array i k ≡ true
    → lookup k s ≡ some (array, i)
points_known s array i k h = elim (Option-cases (lookup k s)) [
  | inl e ↦ ground (arith, e, h)
  | inr (p, e) ↦ ground (arith, e, h, nat_eq.equals_iff p.0 array, nat_eq.equals_iff p.1 i)
]

-- Whatever the array of its pointer, an entity gets all features for its address or none.
attached :
    (b : Bool) (l : List DiscoveryFeature) (fs : Features) (e : DiscoveryEntity)
    → l ≡ (if b then features_at e.address fs else [])
    → HasAll fs e (with_more l e) ⊎ (with_more l e ≡ e)
attached true l fs e h = inl (ap (λ l. with_more l e) h)
attached false l fs e h =
    inr (ap (λ l. with_more l e) h ∙ ap (λ l. record e { features = l }) (append-nil e.features))

attach-Shows :
    (s : Slots) (array i : ℕ) (fs : Features) (es : List DiscoveryEntity)
    → ((k : String) (j : ℕ) → lookup k s ≡ some (array, i + j) → address_at j es ≡ some k)
    → IsLastPlaced s array i es
    → Shows fs es (attach s array i fs es)
attach-Shows s array i fs [] placed last = refl
attach-Shows s array i fs (e ∷ []) placed last =
    let known =
      hits-known (points s array i) e.address fs
        (λ k h. ground (arith, points_known s array i k h, placed k 0)) in
    (ap (λ l. with_more l e) (known ∙ ground (arith, last)), refl)
attach-Shows s array i fs (e ∷ d ∷ es) placed last = (
  attached (points s array i e.address) (hits (points s array i) fs) fs e (
      hits-known (points s array i) e.address fs
        (λ k h. ground (arith, points_known s array i k h, placed k 0))),
  attach-Shows s array (suc i) fs (d ∷ es) (λ k j h. ground (arith, h, placed k (suc j))) last,
)

-- For every announcement, however the runtime chooses the capacities: the result has the announced
-- entities in their order, each with all features that are announced for its address, in their order,
-- or with none of them, and the last entity has all.
pub entities_of-Shows :
    (grow : ℕ → ℕ) (d : DiscoveryData) → Shows d.features d.entities (entities_of grow d)
unfolding entities_of
entities_of-Shows grow d =
    let m = add_entities grow d.entities no_store in
    let v = add_entities-IsStore grow d.entities no_store no_store-IsStore in
    rw (add_features-attach d.features m) (
      subst (λ es. Shows d.features es (attach m.slots m.array 0 d.features m.entities))
        (add_entities-entities grow d.entities no_store)
        (attach-Shows m.slots m.array 0 d.features m.entities
          (λ k j h. v.placed k (m.array, j) (ground (arith, h))) v.last))
