-- ===== src/Discovery/Slots.antt =====
-- What the writes through the pointers of `entityMap` leave in the slice
-- (internal/spineparse/spineparse.go: `ParseDiscoveryEntities`).
use eebus_tracer.Prelude.{
  ℕ, suc, ◌≡◌, inl, inr, refl, sym, ap, ◌∙◌, String, Bool, true, false, ◌&&◌, List, [], ◌∷◌, ◌++◌,
  append-nil, append_assoc, none, some, ◌==◌, nat_eq, string_eq, if◌then◌else◌, Option-cases, arith,
}
use eebus_tracer.Prelude.Maps.{lookup}
use eebus_tracer.Discovery.Info.{DiscoveryEntity, DiscoveryFeature}
use eebus_tracer.Discovery.{Slot, EntityStore, add_to, write, add_feature, add_features}

abbrev pub Slots : Type 0
Slots = List (String × Slot)

abbrev pub Features : Type 0
Features = List (String × DiscoveryFeature)

-- Whether the map leads from an address to a place in the array that the slice has.
abbrev pub points : Slots → ℕ → ℕ → String → Bool
points s array i k = elim (lookup k s) [ none ↦ false | some p ↦ p.0 == array && p.1 == i ]

-- The features whose addresses lead to a place.
abbrev pub hits : (String → Bool) → Features → List DiscoveryFeature
hits at [] = []
hits at ((k, f) ∷ fs) = if at k then f ∷ hits at fs else hits at fs

abbrev pub with_more : List DiscoveryFeature → DiscoveryEntity → DiscoveryEntity
with_more fs e = record e { features = e.features ++ fs }

abbrev pub attach : Slots → ℕ → ℕ → Features → List DiscoveryEntity → List DiscoveryEntity
attach s array i fs [] = []
attach s array i fs (e ∷ es) =
    with_more (hits (points s array i) fs) e ∷ attach s array (suc i) fs es

attach-nil : (s : Slots) (array i : ℕ) (es : List DiscoveryEntity) → attach s array i [] es ≡ es
attach-nil s array i [] = refl
attach-nil s array i (e ∷ es) = ground (arith, append-nil e.features, attach-nil s array (suc i) es)

attach-missed :
    (s : Slots) (array i : ℕ) (k : String) (f : DiscoveryFeature) (fs : Features)
    (es : List DiscoveryEntity)
    → lookup k s ≡ none
    → attach s array i ((k, f) ∷ fs) es ≡ attach s array i fs es
attach-missed s array i k f fs [] h = refl
attach-missed s array i k f fs (e ∷ es) h =
    ground (arith, h, attach-missed s array (suc i) k f fs es h)

with_more-add_to :
    (b : Bool) (f : DiscoveryFeature) (fs : List DiscoveryFeature) (e : DiscoveryEntity)
    → with_more fs (if b then add_to f e else e) ≡ with_more (if b then f ∷ fs else fs) e
with_more-add_to true f fs e =
    ap (λ l. record e { features = l }) (append_assoc e.features (f ∷ []) fs)
with_more-add_to false f fs e = refl

attach-write :
    (s : Slots) (array i : ℕ) (k : String) (p : Slot) (f : DiscoveryFeature) (fs : Features)
    (es : List DiscoveryEntity)
    → lookup k s ≡ some p
    → attach s array i fs (write p array i f es) ≡ attach s array i ((k, f) ∷ fs) es
unfolding write
attach-write s array i k p f fs [] h = refl
attach-write s array i k p f fs (e ∷ es) h = ground (
  arith,
  h,
  attach-write s array (suc i) k p f fs es h,
  with_more-add_to (p.0 == array && p.1 == i) f (hits (points s array i) fs) e,
)

pub add_features-attach :
    (fs : Features) (m : EntityStore)
    → (add_features fs m).entities ≡ attach m.slots m.array 0 fs m.entities
unfolding add_features add_feature
add_features-attach [] m = sym (attach-nil m.slots m.array 0 m.entities)
add_features-attach ((k, f) ∷ fs) m = elim (Option-cases (lookup k m.slots)) [
  | inl h ↦
      rw (h, add_features, add_feature)
        (add_features-attach fs m ∙ sym (attach-missed m.slots m.array 0 k f fs m.entities h))
  | inr (p, h) ↦
      rw (h, add_features, add_feature)
        (add_features-attach fs (record m { entities = write p m.array 0 f m.entities })
          ∙ attach-write m.slots m.array 0 k p f fs m.entities h)
]
