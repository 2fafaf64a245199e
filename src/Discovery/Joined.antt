-- ===== src/Discovery/Joined.antt =====
-- What the loop over the announced entities makes of a list (cmd/eebustracer/devices.go:
-- `mergeDiscoveryEntities`).
use mathlib.Core.Path.{subst}
use mathlib.Core.List.{Memᴰ}
use eebus_tracer.Prelude.{
  All, All-append, All-map, ℕ, zero, suc, ◌≡◌, refl, sym, ap, ◌∙◌, inl, inr, String, ◌||◌, List, [],
  ◌∷◌, ◌++◌, append-nil, append_assoc, some, ◌==◌, nat_eq, string_eq, if◌then◌else◌, is_some,
  contains, length, get_elem?, Succeeds, Succeeds-map, Succeeds-elim, Option-cases, Bool-cases,
  arith,
}
use eebus_tracer.Prelude.Maps.{lookup, insert, lookup-insert}
use eebus_tracer.Discovery.Info.{DiscoveryEntity, DiscoveryFeature}
use eebus_tracer.Discovery.Placed.{address_at}
use eebus_tracer.Discovery.Merge.{Index, index_from, merge_loop, merge_discovery_entities}
use eebus_tracer.Discovery.Merged.{
  Announced, From, entity_addresses, GrowAll, GrowAll-refl, GrowAll-trans, GrowAll-append, Covered,
  Covered-GrowAll, Covered-append, Merges, merge_at-Merges,
}

get_elem?-append :
    (names more : List String) (i : ℕ) (k : String)
    → get_elem? names i ≡ some k
    → get_elem? (names ++ more) i ≡ some k
get_elem?-append [] more i k h = ground (arith, h)
get_elem?-append (n ∷ names) more zero k h = h
get_elem?-append (n ∷ names) more (suc i) k h = get_elem?-append names more i k h

get_elem?-length :
    (names : List String) (k : String) → get_elem? (names ++ k ∷ []) (length names) ≡ some k
get_elem?-length [] k = refl
get_elem?-length (n ∷ names) k = get_elem?-length names k

contains-snoc :
    (names : List String) (a k : String)
    → contains (names ++ a ∷ []) k ≡ (contains names k || a == k)
contains-snoc [] a k = ground arith
contains-snoc (n ∷ names) a k = ground (arith, contains-snoc names a k)

-- The index leads from exactly the addresses in a list to a place of each.
record IsIndexed (idx : Index) (names : List String) : Type 0 where
  right : (k : String) (i : ℕ) → lookup k idx ≡ some i → get_elem? names i ≡ some k
  all : (k : String) → is_some (lookup k idx) ≡ contains names k

insert-IsIndexed :
    (idx : Index) (names : List String) (a : String)
    → IsIndexed idx names
    → IsIndexed (insert a (length names) idx) (names ++ a ∷ [])
insert-IsIndexed idx names a v = record {
  right = λ k i h. elim (Bool-cases (a == k)) [
    | inl same ↦ ground (
      arith,
      h,
      same,
      lookup-insert a k (length names) idx,
      string_eq.equals_iff a k,
      get_elem?-length names a,
    )
    | inr other ↦
        get_elem?-append names (a ∷ []) i k
          (v.right k i (ground (arith, h, other, lookup-insert a k (length names) idx)))
  ];
  all = λ k. ground (arith, lookup-insert a k (length names) idx, contains-snoc names a k, v.all k);
}

address_at_lem :
    (i : ℕ) (es : List DiscoveryEntity) → address_at i es ≡ get_elem? (entity_addresses es) i
address_at_lem i [] = refl
address_at_lem zero (e ∷ es) = refl
address_at_lem (suc i) (e ∷ es) = address_at_lem i es

length-entity_addresses : (es : List DiscoveryEntity) → length (entity_addresses es) ≡ length es
length-entity_addresses [] = refl
length-entity_addresses (e ∷ es) = ap suc (length-entity_addresses es)

entity_addresses-append :
    (es ds : List DiscoveryEntity)
    → entity_addresses (es ++ ds) ≡ entity_addresses es ++ entity_addresses ds
entity_addresses-append [] ds = refl
entity_addresses-append (e ∷ es) ds = ap (λ l. e.address ∷ l) (entity_addresses-append es ds)

append-IsIndexed :
    (idx : Index) (es : List DiscoveryEntity) (e : DiscoveryEntity)
    → IsIndexed idx (entity_addresses es)
    → IsIndexed (insert e.address (length es) idx) (entity_addresses (es ++ e ∷ []))
append-IsIndexed idx es e v =
    rw (entity_addresses-append es (e ∷ []), sym (length-entity_addresses es))
      (insert-IsIndexed idx (entity_addresses es) e.address v)

length-snoc :
    (es : List DiscoveryEntity) (e : DiscoveryEntity) → length (es ++ e ∷ []) ≡ suc (length es)
length-snoc [] e = refl
length-snoc (d ∷ es) e = ap suc (length-snoc es e)

index_from-IsIndexed :
    (before es : List DiscoveryEntity) (idx : Index)
    → IsIndexed idx (entity_addresses before)
    → IsIndexed (index_from (length before) es idx) (entity_addresses (before ++ es))
unfolding index_from
index_from-IsIndexed before [] idx v = rw (append-nil before) v
index_from-IsIndexed before (e ∷ es) idx v =
    rw (length-snoc before e, append_assoc before (e ∷ []) es) at
      (index_from-IsIndexed (before ++ e ∷ []) es (insert e.address (length before) idx)
        (append-IsIndexed idx before e v))

-- The addresses of a list with those that are new of another one.
abbrev pub merged_addresses : List String → List String → List String
merged_addresses [] names = names
merged_addresses (a ∷ more) names =
    merged_addresses more (if contains names a then names else names ++ a ∷ [])

abbrev pub AllCovered : List DiscoveryEntity → List DiscoveryEntity → Type 0
AllCovered [] rs = Unit
AllCovered (e ∷ es) rs = Covered e rs × AllCovered es rs

-- The entities that were there come first and lose no feature, those with new addresses follow in
-- their order, each announced entity has a place with features at all its addresses, and each feature
-- is one that an entity with this address brought, before or now.
abbrev pub IsMerged : List DiscoveryEntity → List DiscoveryEntity → List DiscoveryEntity → Type 0
IsMerged existing incoming rs =
    GrowAll existing rs
    × (entity_addresses rs
        ≡ merged_addresses (entity_addresses incoming) (entity_addresses existing))
    × AllCovered incoming rs
    × All (From (existing ++ incoming)) rs

-- The same within the loop, where `sources` is all that was there before it.
abbrev IsJoined :
    List DiscoveryEntity
    → List DiscoveryEntity
    → List DiscoveryEntity
    → List DiscoveryEntity
    → Type 0
IsJoined sources existing incoming rs =
    GrowAll existing rs
    × (entity_addresses rs
        ≡ merged_addresses (entity_addresses incoming) (entity_addresses existing))
    × AllCovered incoming rs
    × (All (From sources) existing → All (From sources) incoming → All (From sources) rs)

-- One round of the loop, with what the rest makes of its result.
add-IsJoined :
    (sources : List DiscoveryEntity) (ent : DiscoveryEntity)
    (existing incoming next rs : List DiscoveryEntity)
    → GrowAll existing next
    → Covered ent next
    → entity_addresses next ≡ (
        if contains (entity_addresses existing) ent.address
        then entity_addresses existing
        else entity_addresses existing ++ ent.address ∷ [])
    → (From sources ent → All (From sources) existing → All (From sources) next)
    → IsJoined sources next incoming rs
    → IsJoined sources existing (ent ∷ incoming) rs
add-IsJoined sources ent existing incoming next rs grown covered names from m = (
  GrowAll-trans existing next rs grown m.0,
  m.1 ∙ ap (merged_addresses (entity_addresses incoming)) names,
  (Covered-GrowAll ent next rs covered m.0, m.2),
  λ v w. m.3 (from w.0 v) w.1,
)

merge_loop-IsJoined :
    (sources incoming existing : List DiscoveryEntity) (idx : Index)
    → IsIndexed idx (entity_addresses existing)
    → Succeeds (IsJoined sources existing incoming) (merge_loop incoming existing idx)
unfolding merge_loop
merge_loop-IsJoined sources [] existing idx v = (GrowAll-refl existing, refl, tt, λ h k. h)
merge_loop-IsJoined sources (ent ∷ incoming) existing idx v =
    elim (Option-cases (lookup ent.address idx)) [
      | inl e ↦
          let next = existing ++ ent ∷ [] in
          rw (e, merge_loop)
            (Succeeds-map (IsJoined sources next incoming)
              (IsJoined sources existing (ent ∷ incoming)) _
              (merge_loop-IsJoined sources incoming next (insert ent.address (length existing) idx)
                (append-IsIndexed idx existing ent v))
              (λ rs.
                add-IsJoined sources ent existing incoming next rs
                  (GrowAll-append existing (ent ∷ [])) (Covered-append ent existing)
                  (ground
                    (arith, e, v.all ent.address, entity_addresses-append existing (ent ∷ [])))
                  (λ h v. All-append (From sources) existing (ent ∷ []) v (h, tt))))
      | inr (pos, e) ↦
          rw (e, merge_loop)
            (Succeeds-elim (Merges sources ent existing)
              (IsJoined sources existing (ent ∷ incoming)) _ _
              (merge_at-Merges sources pos ent existing
                (address_at_lem pos existing ∙ v.right ent.address pos e))
              (λ next c.
                Succeeds-map (IsJoined sources next incoming)
                  (IsJoined sources existing (ent ∷ incoming)) _
                  (merge_loop-IsJoined sources incoming next idx
                    (subst (IsIndexed idx) (sym c.same) v))
                  (λ rs.
                    add-IsJoined sources ent existing incoming next rs c.grown c.covered
                      (ground (arith, e, v.all ent.address, c.same)) c.from)))
    ]

no_index-IsIndexed : IsIndexed [] []
unfolding lookup
no_index-IsIndexed = record { right = λ k i h. absurd (cc); all = λ k. refl }

Announced-append_left :
    (es ds : List DiscoveryEntity) (a : String) (f : DiscoveryFeature)
    → Announced es a f
    → Announced (es ++ ds) a f
Announced-append_left [] ds a f h = absurd h
Announced-append_left (e ∷ es) ds a f (inl h) = inl h
Announced-append_left (e ∷ es) ds a f (inr h) = inr (Announced-append_left es ds a f h)

Announced-append_right :
    (es ds : List DiscoveryEntity) (a : String) (f : DiscoveryFeature)
    → Announced ds a f
    → Announced (es ++ ds) a f
Announced-append_right [] ds a f h = h
Announced-append_right (e ∷ es) ds a f h = inr (Announced-append_right es ds a f h)

-- Every member of a list.
All-Memᴰ :
    (P : DiscoveryFeature → Type 0) (fs : List DiscoveryFeature)
    → ((f : DiscoveryFeature) → Memᴰ f fs → P f)
    → All P fs
All-Memᴰ P [] h = tt
All-Memᴰ P (f ∷ fs) h = (h f (Memᴰ.head refl), All-Memᴰ P fs (λ g m. h g (Memᴰ.tail m)))

From-self : (es : List DiscoveryEntity) → All (From es) es
From-self [] = tt
From-self (e ∷ es) = (
  All-Memᴰ (Announced (e ∷ es) e.address) e.features (λ f m. inl (refl, m)),
  All-map (From es) (From (e ∷ es))
      (λ r.
        All-map (Announced es r.address) (Announced (e ∷ es) r.address) (λ f h. inr h) r.features)
      es (From-self es),
)

From-left : (es ds : List DiscoveryEntity) → All (From (es ++ ds)) es
From-left es ds =
    All-map (From es) (From (es ++ ds))
      (λ r.
        All-map (Announced es r.address) (Announced (es ++ ds) r.address)
          (Announced-append_left es ds r.address) r.features)
      es (From-self es)

From-right : (es ds : List DiscoveryEntity) → All (From (es ++ ds)) ds
From-right es ds =
    All-map (From ds) (From (es ++ ds))
      (λ r.
        All-map (Announced ds r.address) (Announced (es ++ ds) r.address)
          (Announced-append_right es ds r.address) r.features)
      ds (From-self ds)

-- For any two lists the merge gives a result without an index out of range: the entities that were
-- there come first and lose no feature, those with new addresses follow in their order, each once, and
-- each announced entity has a place with its address, with features at the addresses of all of its own.
-- Each feature of the result, its role and functions included, is one that an entity with this address
-- brought, before or now.
pub merge_discovery_entities-IsMerged :
    (existing incoming : List DiscoveryEntity)
    → Succeeds (IsMerged existing incoming) (merge_discovery_entities existing incoming)
unfolding merge_discovery_entities
merge_discovery_entities-IsMerged existing incoming =
    let sources = existing ++ incoming in
    Succeeds-map (IsJoined sources existing incoming) (IsMerged existing incoming) _
      (merge_loop-IsJoined sources incoming existing (index_from 0 existing [])
        (index_from-IsIndexed [] existing [] no_index-IsIndexed))
      (λ rs m. (m.0, m.1, m.2, m.3 (From-left existing incoming) (From-right existing incoming)))
