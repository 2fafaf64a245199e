-- ===== src/Parser/Idempotent.antt =====
-- The repair of a repaired datagram (internal/parser/spine.go: `fixupSpineDatagram`).
use eebus_tracer.Prelude.{
  ◌≡◌, refl, ◌∙◌, false, none, some, string_eq, arith, Option-cases, inl, inr,
}
use eebus_tracer.Model.Payload.{Json, obj, Members, find}
use eebus_tracer.Model.Object.{read_map, assign, marshal, find-assign, find-marshal}
use eebus_tracer.Parser.Fixup.{
  fix_member, fix_addresses, fix_header, fix_datagram, fixup_spine_datagram, address_keys,
}
use eebus_tracer.Parser.Repair.{
  find-marshal-assign, fix_member-none, fix_member-fixed, fix_addresses-NeedNone, NeedNone-marshal,
  fix_addresses-none,
}

-- The header's part of the fix by what `find` and `read_map` give.
fix_header-of :
    (dg : Members) {raw : Json} {hdr : Members}
    → find "header" dg ≡ some raw
    → read_map raw ≡ some hdr
    → (fix_addresses address_keys hdr false).1 ≡ false
    → fix_header dg ≡ none
unfolding fix_header
fix_header-of dg e w h = rw (e, fix_header) (rw (w) (rw h refl))

pub fix_header-some :
    (dg : Members) {fixed : Members}
    → fix_header dg ≡ some fixed
    → (hdr : Members) × (fixed
        ≡ assign "header" (obj (marshal (fix_addresses address_keys hdr false).0)) dg)
unfolding fix_header
fix_header-some dg h = elim (Option-cases (find "header" dg)) [
  | inl e ↦ absurd (ground (arith, e))
  | inr (raw, e) ↦ elim (Option-cases (read_map raw)) [
    | inl w ↦ absurd (ground (arith, e, w))
    | inr (hdr, w) ↦ (hdr, ground (arith, e, w))
  ]
]

fix_header-fixed :
    (dg : Members) {fixed : Members}
    → fix_header dg ≡ some fixed
    → fix_header (marshal fixed) ≡ none
fix_header-fixed dg h =
    let (hdr, e) = fix_header-some dg h in
    let new = (fix_addresses address_keys hdr false).0 in
    rw e (
      fix_header-of _ (find-marshal-assign "header" (obj (marshal new)) dg) refl (
        fix_addresses-none address_keys (marshal new) false
          (NeedNone-marshal address_keys new (fix_addresses-NeedNone address_keys hdr false))))

-- Whether the header needs a fix depends on its value alone.
fix_header-none :
    (dg ns : Members)
    → find "header" ns ≡ find "header" dg
    → fix_header dg ≡ none
    → fix_header ns ≡ none
unfolding fix_header
fix_header-none dg ns e h = ground arith

-- The fix of the header leaves the payload alone.
payload-fix_header :
    (dg : Members) {fixed : Members}
    → fix_header dg ≡ some fixed
    → fix_member "payload" "cmd" dg ≡ none
    → fix_member "payload" "cmd" (marshal fixed) ≡ none
payload-fix_header dg h p =
    let (hdr, e) = fix_header-some dg h in
    let new = obj (marshal (fix_addresses address_keys hdr false).0) in
    rw e (
      fix_member-none "payload" "cmd" dg _
        (find-marshal "payload" (assign "header" new dg) ∙ find-assign "header" new "payload" dg) p)

fix_datagram-none :
    (dg : Members)
    → fix_member "payload" "cmd" dg ≡ none
    → fix_header dg ≡ none
    → fix_datagram dg ≡ none
unfolding fix_datagram
fix_datagram-none dg p h = rw (p, fix_datagram) h

fix_datagram-fixed :
    (dg : Members) {fixed : Members}
    → fix_datagram dg ≡ some fixed
    → fix_datagram (marshal fixed) ≡ none
unfolding fix_datagram
fix_datagram-fixed dg {fixed} h = elim (Option-cases (fix_member "payload" "cmd" dg)) [
  | inl p ↦
      let hdr : fix_header dg ≡ some fixed = ground (arith, p) in
      fix_datagram-none (marshal fixed) (payload-fix_header dg hdr p) (fix_header-fixed dg hdr)
  | inr (first, p) ↦ elim (Option-cases (fix_header first)) [
    | inl q ↦
        let same : fixed ≡ first = ground (arith, p, q) in
        rw same (
          fix_datagram-none (marshal first)
            (fix_member-none "payload" "cmd" first (marshal first) (find-marshal "payload" first)
              (fix_member-fixed "payload" "cmd" dg p))
            (fix_header-none first (marshal first) (find-marshal "header" first) q))
    | inr (both, q) ↦
        let same : fixed ≡ both = ground (arith, p, q) in
        rw same (
          fix_datagram-none (marshal both)
            (payload-fix_header first q (fix_member-fixed "payload" "cmd" dg p))
            (fix_header-fixed first q))
  ]
]

-- The repair at a datagram that needs none.
fixup_spine_datagram-none :
    (top dg : Members) {raw : Json}
    → find "datagram" top ≡ some raw
    → read_map raw ≡ some dg
    → fix_datagram dg ≡ none
    → fixup_spine_datagram (obj top) ≡ obj top
unfolding fixup_spine_datagram
fixup_spine_datagram-none top dg e w h = rw (e, fixup_spine_datagram) (rw (w) (rw (h) refl))

-- A repaired datagram needs no repair: the second run gives the value back as it is, its order of
-- members included, whatever the JSON value.
pub fixup_spine_datagram-idempotent :
    (j : Json) → fixup_spine_datagram (fixup_spine_datagram j) ≡ fixup_spine_datagram j
unfolding fixup_spine_datagram
fixup_spine_datagram-idempotent j = elim (Option-cases (read_map j)) [
  | inl a ↦ ground (arith, a)
  | inr (top, a) ↦ elim (Option-cases (find "datagram" top)) [
    | inl b ↦ ground (arith, a, b)
    | inr (raw, b) ↦ elim (Option-cases (read_map raw)) [
      | inl c ↦ ground (arith, a, b, c)
      | inr (dg, c) ↦ elim (Option-cases (fix_datagram dg)) [
        | inl d ↦ ground (arith, a, b, c, d)
        | inr (fixed, d) ↦ ground (
          arith,
          a,
          b,
          c,
          d,
          fixup_spine_datagram-none (marshal (assign "datagram" (obj (marshal fixed)) top))
              (marshal fixed) (find-marshal-assign "datagram" (obj (marshal fixed)) top) refl
              (fix_datagram-fixed dg d),
        )
      ]
    ]
  ]
]
