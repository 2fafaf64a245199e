-- ===== src/Discovery/Merged.antt =====
-- What the joined announcements keep (cmd/eebustracer/devices.go: `mergeDiscoveryEntities`).
use mathlib.Core.List.{Memᴰ}
use eebus_tracer.Prelude.{
  ℕ, zero, suc, ◌≡◌, ◌⊎◌, refl, sym, ap, ◌∙◌, inl, inr, String, true, not, ◌&&◌, ◌||◌, List, [],
  ◌∷◌, ◌++◌, append-nil, append_assoc, map, some, ◌==◌, nat_eq, string_eq, if_elim, if_both,
  contains, All, All-append, Succeeds, Succeeds-elim, arith,
}
use eebus_tracer.Discovery.Info.{DiscoveryEntity, DiscoveryFeature}
use eebus_tracer.Discovery.{add_to}
use eebus_tracer.Discovery.Placed.{address_at}
use eebus_tracer.Discovery.Merge.{merge_features, feature_addresses, merge_into, merge_at}

abbrev pub entity_addresses : List DiscoveryEntity → List String
entity_addresses es = map (λ e. e.address) es

-- An entity with at least the features that another one has, which come first.
abbrev pub Grows : DiscoveryEntity → DiscoveryEntity → Type 0
Grows e r =
    (r.address ≡ e.address) × ((more : List DiscoveryFeature) × (r.features ≡ e.features ++ more))

abbrev pub GrowAll : List DiscoveryEntity → List DiscoveryEntity → Type 0
GrowAll [] rs = Unit
GrowAll (e ∷ es) [] = ⊥
GrowAll (e ∷ es) (r ∷ rs) = Grows e r × GrowAll es rs

Grows-refl : (e : DiscoveryEntity) → Grows e e
Grows-refl e = (refl, ([], sym (append-nil e.features)))

Grows-trans : (a b c : DiscoveryEntity) → Grows a b → Grows b c → Grows a c
Grows-trans a b c (h, (xs, i)) (k, (ys, j)) =
    (k ∙ h, (xs ++ ys, j ∙ ap (λ l. l ++ ys) i ∙ append_assoc a.features xs ys))

merge_features-Grows :
    (fs : List DiscoveryFeature) (seen : List String) (e : DiscoveryEntity)
    → Grows e (merge_features fs seen e)
unfolding merge_features
merge_features-Grows [] seen e = Grows-refl e
merge_features-Grows (f ∷ fs) seen e =
    if_elim (Grows e) (contains seen f.address) _ _ (λ h. merge_features-Grows fs seen e)
      (λ h.
        Grows-trans e (add_to f e) (merge_features fs (f.address ∷ seen) (add_to f e))
          (refl, (f ∷ [], refl)) (merge_features-Grows fs (f.address ∷ seen) (add_to f e)))

contains-added :
    (old : List DiscoveryFeature) (f : DiscoveryFeature) (k : String)
    → contains (feature_addresses (old ++ f ∷ [])) k
      ≡ (contains (feature_addresses old) k || f.address == k)
contains-added [] f k = ground arith
contains-added (g ∷ old) f k = ground (arith, contains-added old f k)

-- No feature that is announced is missing, by its address.
merge_features-all :
    (fs : List DiscoveryFeature) (seen : List String) (e : DiscoveryEntity) (k : String)
    → (contains seen k ≡ true → contains (feature_addresses e.features) k ≡ true)
    → (contains (feature_addresses fs) k || contains (feature_addresses e.features) k) ≡ true
    → contains (feature_addresses (merge_features fs seen e).features) k ≡ true
unfolding merge_features
merge_features-all [] seen e k h i = i
merge_features-all (f ∷ fs) seen e k h i =
    if_elim {A = DiscoveryEntity} (λ r. contains (feature_addresses r.features) k ≡ true)
      (contains seen f.address) _ _
      (λ b.
        merge_features-all fs seen e k h
          (ground (arith, b, i, h, string_eq.equals_iff f.address k)))
      (λ b.
        let added = contains-added e.features f k in
        merge_features-all fs (f.address ∷ seen) (add_to f e) k
          (λ j. ground (arith, h, j, added, string_eq.equals_iff f.address k))
          (ground (arith, i, added, string_eq.equals_iff f.address k)))

merge_into-Grows : (ent e : DiscoveryEntity) → Grows e (merge_into ent e)
unfolding merge_into
merge_into-Grows ent e =
    let merged = merge_features ent.features (feature_addresses e.features) e in
    let grown = merge_features-Grows ent.features (feature_addresses e.features) e in
    if_elim (Grows e) (merged.entity_type == "" && not (ent.entity_type == "")) _ _ (λ h. grown)
      (λ h. grown)

-- An entity with the address of another one and all its features, by their addresses.
abbrev pub Gives : DiscoveryEntity → DiscoveryEntity → Type 0
Gives ent r =
    (r.address ≡ ent.address)
    × ((k : String)
        → contains (feature_addresses ent.features) k ≡ true
        → contains (feature_addresses r.features) k ≡ true)

merge_into-Gives :
    (ent e : DiscoveryEntity) → e.address ≡ ent.address → Gives ent (merge_into ent e)
unfolding merge_into
merge_into-Gives ent e same =
    let merged = merge_features ent.features (feature_addresses e.features) e in
    let given : Gives ent merged = (
      (merge_features-Grows ent.features (feature_addresses e.features) e).0 ∙ same,
      λ k h.
          merge_features-all ent.features (feature_addresses e.features) e k (λ i. i)
            (ground (arith, h)),
    ) in
    if_elim (Gives ent) (merged.entity_type == "" && not (ent.entity_type == "")) _ _ (λ h. given)
      (λ h. given)

contains-more :
    (old more : List DiscoveryFeature) (k : String)
    → contains (feature_addresses old) k ≡ true
    → contains (feature_addresses (old ++ more)) k ≡ true
contains-more [] more k h = ground (arith, h)
contains-more (f ∷ old) more k h = ground (arith, h, contains-more old more k)

Gives-Grows : (ent e r : DiscoveryEntity) → Gives ent e → Grows e r → Gives ent r
Gives-Grows ent e r g (h, (more, i)) =
    (h ∙ g.0, λ k j. rw i (contains-more e.features more k (g.1 k j)))

-- An announced entity has its place in a list.
abbrev pub Covered : DiscoveryEntity → List DiscoveryEntity → Type 0
Covered ent [] = ⊥
Covered ent (r ∷ rs) = Gives ent r ⊎ Covered ent rs

pub Covered-GrowAll :
    (ent : DiscoveryEntity) (es rs : List DiscoveryEntity)
    → Covered ent es
    → GrowAll es rs
    → Covered ent rs
Covered-GrowAll ent [] rs c h = absurd c
Covered-GrowAll ent (e ∷ es) [] c h = h
Covered-GrowAll ent (e ∷ es) (r ∷ rs) (inl g) h = inl (Gives-Grows ent e r g h.0)
Covered-GrowAll ent (e ∷ es) (r ∷ rs) (inr c) h = inr (Covered-GrowAll ent es rs c h.1)

pub Covered-append :
    (ent : DiscoveryEntity) (es : List DiscoveryEntity) → Covered ent (es ++ ent ∷ [])
Covered-append ent [] = inl (refl, λ k h. h)
Covered-append ent (e ∷ es) = inr (Covered-append ent es)

pub GrowAll-refl : (es : List DiscoveryEntity) → GrowAll es es
GrowAll-refl [] = tt
GrowAll-refl (e ∷ es) = (Grows-refl e, GrowAll-refl es)

pub GrowAll-trans :
    (as' bs cs : List DiscoveryEntity) → GrowAll as' bs → GrowAll bs cs → GrowAll as' cs
GrowAll-trans [] bs cs h k = tt
GrowAll-trans (a ∷ as') [] cs h k = absurd h
GrowAll-trans (a ∷ as') (b ∷ bs) [] h k = k
GrowAll-trans (a ∷ as') (b ∷ bs) (c ∷ cs) h k =
    (Grows-trans a b c h.0 k.0, GrowAll-trans as' bs cs h.1 k.1)

pub GrowAll-append : (es ds : List DiscoveryEntity) → GrowAll es (es ++ ds)
GrowAll-append [] ds = tt
GrowAll-append (e ∷ es) ds = (Grows-refl e, GrowAll-append es ds)

-- A feature, its role and functions included, that one of the entities with an address announces.
abbrev pub Announced : List DiscoveryEntity → String → DiscoveryFeature → Type 0
Announced [] address f = ⊥
Announced (e ∷ es) address f = ((e.address ≡ address) × Memᴰ f e.features) ⊎ Announced es address f

-- All features of an entity are announced for its address.
abbrev pub From : List DiscoveryEntity → DiscoveryEntity → Type 0
From sources r = All (Announced sources r.address) r.features

merge_features-From :
    (sources : List DiscoveryEntity) (fs : List DiscoveryFeature) (seen : List String)
    (e : DiscoveryEntity)
    → All (Announced sources e.address) fs
    → From sources e
    → From sources (merge_features fs seen e)
unfolding merge_features
merge_features-From sources [] seen e h v = v
merge_features-From sources (f ∷ fs) seen e h v =
    if_both (From sources) (contains seen f.address) _ _
      (merge_features-From sources fs seen e h.1 v)
      (merge_features-From sources fs (f.address ∷ seen) (add_to f e) h.1
        (All-append (Announced sources e.address) e.features (f ∷ []) v (h.0, tt)))

merge_into-From :
    (sources : List DiscoveryEntity) (ent e : DiscoveryEntity)
    → ent.address ≡ e.address
    → From sources ent
    → From sources e
    → From sources (merge_into ent e)
unfolding merge_into
merge_into-From sources ent e same h v =
    let merged = merge_features ent.features (feature_addresses e.features) e in
    let kept =
      merge_features-From sources ent.features (feature_addresses e.features) e (rw same at h) v in
    if_both (From sources) (merged.entity_type == "" && not (ent.entity_type == "")) _ _ kept kept

-- What one announced entity does to the list where its address is there already.
pub record Merges (sources : List DiscoveryEntity) (ent : DiscoveryEntity)
    (es rs : List DiscoveryEntity) : Type 0 where
  pub grown : GrowAll es rs
  pub same : entity_addresses rs ≡ entity_addresses es
  pub covered : Covered ent rs
  pub from : From sources ent → All (From sources) es → All (From sources) rs

some_address : (a b : String) → some a ≡ some b → a ≡ b
some_address a b h = ground (arith, h)

pub merge_at-Merges :
    (sources : List DiscoveryEntity) (i : ℕ) (ent : DiscoveryEntity) (es : List DiscoveryEntity)
    → address_at i es ≡ some ent.address
    → Succeeds (Merges sources ent es) (merge_at i ent es)
unfolding merge_at
merge_at-Merges sources i ent [] h = absurd (cc)
merge_at-Merges sources zero ent (e ∷ es) h =
    let grows = merge_into-Grows ent e in
    let same_address = some_address e.address ent.address h in
    record {
      grown = (grows, GrowAll-refl es);
      same = ap (λ a. a ∷ entity_addresses es) grows.0;
      from = λ h v. (merge_into-From sources ent e (sym same_address) h v.0, v.1);
      covered = inl (merge_into-Gives ent e same_address);
    }
merge_at-Merges sources (suc i) ent (e ∷ es) h =
    Succeeds-elim (Merges sources ent es) (Merges sources ent (e ∷ es)) (merge_at i ent es)
      (λ rs. some (e ∷ rs)) (merge_at-Merges sources i ent es h)
      (λ rs v. record {
        grown = (Grows-refl e, v.grown);
        same = ap (λ l. e.address ∷ l) v.same;
        covered = inr v.covered;
        from = λ h w. (w.0, v.from h w.1);
      })
