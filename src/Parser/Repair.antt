-- ===== src/Parser/Repair.antt =====
-- What the repair of arrays does to a datagram (internal/parser/spine.go: `fixupSpineDatagram`).
use eebus_tracer.Prelude.{
  ◌≡◌, refl, String, Bool, true, false, List, [], ◌∷◌, none, some, ◌==◌, string_eq, arith,
  Option-cases, inl, inr,
}
use eebus_tracer.Model.Payload.{Json, arr, nil, cons, Members, find}
use eebus_tracer.Model.Object.{read_map, assign, marshal, find-assign, find-marshal}
use eebus_tracer.Parser.Fixup.{wrap_field, fix_json_array_field, fix_member, fix_addresses}

pub find-marshal-assign :
    (k : String) (v : Json) (ms : Members) → find k (marshal (assign k v ms)) ≡ some v
find-marshal-assign k v ms =
    ground (arith, find-marshal k (assign k v ms), find-assign k v k ms, string_eq.equals_iff k k)

pub find-marshal-assign-ne :
    (k : String) (v : Json) (q : String) (ms : Members)
    → (k == q) ≡ false
    → find q (marshal (assign k v ms)) ≡ find q ms
find-marshal-assign-ne k v q ms h =
    ground (arith, find-marshal q (assign k v ms), find-assign k v q ms)

wrap_field-fixed :
    (k : String) (ms : Members) {fixed : Members}
    → wrap_field k ms ≡ some fixed
    → wrap_field k (marshal fixed) ≡ none
unfolding wrap_field
wrap_field-fixed k ms h = elim (Option-cases (find k ms)) [
  | inl e ↦ ground (arith, e)
  | inr (v, e) ↦ ground (arith, e, find-marshal-assign k (arr (cons v nil)) ms)
]

-- A field once fixed is fixed for good.
fix_json_array_field-fixed :
    (j : Json) (k : String) {fixed : Json}
    → fix_json_array_field j k ≡ some fixed
    → fix_json_array_field fixed k ≡ none
unfolding fix_json_array_field
fix_json_array_field-fixed j k h = elim (Option-cases (read_map j)) [
  | inl e ↦ ground (arith, e)
  | inr (ms, e) ↦ elim (Option-cases (wrap_field k ms)) [
    | inl w ↦ ground (arith, e, w)
    | inr (fixed, w) ↦ ground (arith, e, w, wrap_field-fixed k ms w)
  ]
]

module _ (k field : String) (ms : Members) where
  pub fix_member-some :
      {fixed : Members}
      → fix_member k field ms ≡ some fixed
      → (v : Json) × (fixed ≡ assign k v ms) × (fix_json_array_field v field ≡ none)
  unfolding fix_member
  fix_member-some h = elim (Option-cases (find k ms)) [
    | inl e ↦ absurd (ground (arith, e))
    | inr (j, e) ↦ elim (Option-cases (fix_json_array_field j field)) [
      | inl w ↦ absurd (ground (arith, e, w))
      | inr (v, w) ↦ (v, ground (arith, e, w), fix_json_array_field-fixed j field w)
    ]
  ]

  -- Whether a member needs a fix depends on its value alone.
  pub fix_member-none :
      (ns : Members)
      → find k ns ≡ find k ms
      → fix_member k field ms ≡ none
      → fix_member k field ns ≡ none
  unfolding fix_member
  fix_member-none ns e h = ground arith

pub fix_member-assign :
    (k field : String) (v : Json) (ms : Members)
    → fix_json_array_field v field ≡ none
    → fix_member k field (assign k v ms) ≡ none
unfolding fix_member
fix_member-assign k field v ms h = ground (arith, find-assign k v k ms, string_eq.equals_iff k k)

-- Once fixed, a member needs no fix.
pub fix_member-fixed :
    (k field : String) (ms : Members) {fixed : Members}
    → fix_member k field ms ≡ some fixed
    → fix_member k field fixed ≡ none
fix_member-fixed k field ms h =
    let (v, e, w) = fix_member-some k field ms h in rw e (fix_member-assign k field v ms w)

fix_member-assign-any :
    (k q field : String) (v : Json) (ms : Members)
    → fix_json_array_field v field ≡ none
    → fix_member q field ms ≡ none
    → fix_member q field (assign k v ms) ≡ none
unfolding fix_member
fix_member-assign-any k q field v ms h r = ground (arith, find-assign k v q ms)

-- A fix of one member spoils no other.
fix_member-keeps :
    (k q field : String) (ms : Members) {fixed : Members}
    → fix_member k field ms ≡ some fixed
    → fix_member q field ms ≡ none
    → fix_member q field fixed ≡ none
fix_member-keeps k q field ms h r =
    let (v, e, w) = fix_member-some k field ms h in rw e (fix_member-assign-any k q field v ms w r)

-- The loop never spoils an address that needs no fix.
fix_addresses-keeps :
    (ks : List String) (q : String) (hdr : Members) (changed : Bool)
    → fix_member q "entity" hdr ≡ none
    → fix_member q "entity" (fix_addresses ks hdr changed).0 ≡ none
unfolding fix_addresses
fix_addresses-keeps [] q hdr changed h = h
fix_addresses-keeps (k ∷ ks) q hdr changed h = elim (Option-cases (fix_member k "entity" hdr)) [
  | inl e ↦ rw (e, fix_addresses) (fix_addresses-keeps ks q hdr changed h)
  | inr (fixed, e) ↦
      rw (e, fix_addresses)
        (fix_addresses-keeps ks q fixed true (fix_member-keeps k q "entity" hdr e h))
]

abbrev pub NeedNone : List String → Members → Type 0
NeedNone [] hdr = Unit
NeedNone (k ∷ ks) hdr = (fix_member k "entity" hdr ≡ none) × NeedNone ks hdr

-- After the loop none of its addresses needs a fix.
pub fix_addresses-NeedNone :
    (ks : List String) (hdr : Members) (changed : Bool)
    → NeedNone ks (fix_addresses ks hdr changed).0
unfolding fix_addresses
fix_addresses-NeedNone [] hdr changed = tt
fix_addresses-NeedNone (k ∷ ks) hdr changed = elim (Option-cases (fix_member k "entity" hdr)) [
  | inl e ↦
      rw (e, fix_addresses)
        (fix_addresses-keeps ks k hdr changed e, fix_addresses-NeedNone ks hdr changed)
  | inr (fixed, e) ↦
      rw (e, fix_addresses)
        (
          fix_addresses-keeps ks k fixed true (fix_member-fixed k "entity" hdr e),
          fix_addresses-NeedNone ks fixed true,
        )
]

pub NeedNone-marshal :
    (ks : List String) (hdr : Members) → NeedNone ks hdr → NeedNone ks (marshal hdr)
NeedNone-marshal [] hdr h = tt
NeedNone-marshal (k ∷ ks) hdr h =
    (fix_member-none k "entity" hdr _ (find-marshal k hdr) h.0, NeedNone-marshal ks hdr h.1)

-- Where none needs a fix the loop changes nothing.
pub fix_addresses-none :
    (ks : List String) (hdr : Members) (changed : Bool)
    → NeedNone ks hdr
    → (fix_addresses ks hdr changed).1 ≡ changed
unfolding fix_addresses
fix_addresses-none [] hdr changed h = refl
fix_addresses-none (k ∷ ks) hdr changed h =
    rw (h.0, fix_addresses) (fix_addresses-none ks hdr changed h.1)
