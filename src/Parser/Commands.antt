-- ===== src/Parser/Commands.antt =====
-- The commands that the analyses read from a repaired datagram (internal/parser/spine.go:
-- `fixupSpineDatagram`; internal/analysis/subscriptions.go: `extractCmds`).
use eebus_tracer.Prelude.{
  ◌≡◌, refl, ◌∙◌, ap, false, List, [], Option, none, some, string_eq, arith, Option-cases,
  Bool-cases, ◌⊎◌, inl, inr,
}
use eebus_tracer.Model.Payload.{
  Json, null, bool, int, real, str, arr, obj, nil, cons, Members, find, items,
}
use eebus_tracer.Model.Object.{read_map, assign, marshal, find-assign, find-marshal}
use eebus_tracer.Subscriptions.Payload.{extract_cmds, cmds_of, read_struct}
use eebus_tracer.Parser.Fixup.{
  wrap_field, fix_json_array_field, fix_member, fix_addresses, fix_header, fix_datagram,
  fixup_spine_datagram, address_keys, is_array,
}
use eebus_tracer.Parser.Repair.{find-marshal-assign}
use eebus_tracer.Parser.Idempotent.{fix_header-some}

-- The same commands, or there were none before.
abbrev Reads : List Json → List Json → Type 0
Reads before after = (after ≡ before) ⊎ (before ≡ [])

cmds_of-wrapped :
    (v : Json) → is_array v ≡ false → Reads (cmds_of (some v)) (cmds_of (some (arr (cons v nil))))
unfolding items
cmds_of-wrapped (obj ms) h = inl refl
cmds_of-wrapped null h = inr refl
cmds_of-wrapped (bool b) h = inr refl
cmds_of-wrapped (int i) h = inr refl
cmds_of-wrapped (real r) h = inr refl
cmds_of-wrapped (str s) h = inr refl
cmds_of-wrapped (arr js) h = absurd (cc)

-- The commands in a payload, and in the members of a datagram.
abbrev cmds_of_payload : Option Json → List Json
cmds_of_payload p = elim (read_struct p) [ none ↦ [] | some payload ↦ cmds_of (find "cmd" payload) ]

abbrev cmds_in : Members → List Json
cmds_in dg = cmds_of_payload (find "payload" dg)

wrap_field-cmd :
    (ms : Members) {fixed : Members}
    → wrap_field "cmd" ms ≡ some fixed
    → Reads (cmds_of (find "cmd" ms)) (cmds_of (find "cmd" (marshal fixed)))
unfolding wrap_field
wrap_field-cmd ms h = elim (Option-cases (find "cmd" ms)) [
  | inl e ↦ absurd (ground (arith, e))
  | inr (v, e) ↦ elim (Bool-cases (is_array v)) [
    | inl a ↦ absurd (ground (arith, e, a))
    | inr a ↦
        ground (arith, e, a, cmds_of-wrapped v a, find-marshal-assign "cmd" (arr (cons v nil)) ms)
  ]
]

fix_json_array_field-cmd :
    (p : Json) {fixed : Json}
    → fix_json_array_field p "cmd" ≡ some fixed
    → Reads (cmds_of_payload (some p)) (cmds_of_payload (some fixed))
unfolding fix_json_array_field
fix_json_array_field-cmd (obj ms) h = elim (Option-cases (wrap_field "cmd" ms)) [
  | inl w ↦ absurd (ground (arith, w))
  | inr (fixed, w) ↦ ground (arith, w, wrap_field-cmd ms w)
]
fix_json_array_field-cmd null h = inr refl
fix_json_array_field-cmd p h = absurd (ground arith)

fix_member-cmd :
    (dg : Members) {fixed : Members}
    → fix_member "payload" "cmd" dg ≡ some fixed
    → Reads (cmds_in dg) (cmds_in fixed)
unfolding fix_member
fix_member-cmd dg h = elim (Option-cases (find "payload" dg)) [
  | inl e ↦ absurd (ground (arith, e))
  | inr (p, e) ↦ elim (Option-cases (fix_json_array_field p "cmd")) [
    | inl w ↦ absurd (ground (arith, e, w))
    | inr (v, w) ↦
        ground (arith, e, w, fix_json_array_field-cmd p w, find-assign "payload" v "payload" dg)
  ]
]

fix_header-cmd :
    (dg : Members) {fixed : Members} → fix_header dg ≡ some fixed → cmds_in fixed ≡ cmds_in dg
fix_header-cmd dg h =
    let (hdr, e) = fix_header-some dg h in
    let new = obj (marshal (fix_addresses address_keys hdr false).0) in
    ap (λ ms. cmds_in ms) e ∙ ap cmds_of_payload (find-assign "header" new "payload" dg)

fix_datagram-cmd :
    (dg : Members) {fixed : Members}
    → fix_datagram dg ≡ some fixed
    → Reads (cmds_in dg) (cmds_in fixed)
unfolding fix_datagram
fix_datagram-cmd dg {fixed} h = elim (Option-cases (fix_member "payload" "cmd" dg)) [
  | inl p ↦ inl (fix_header-cmd dg {fixed = fixed} (ground (arith, p)))
  | inr (first, p) ↦ elim (Option-cases (fix_header first)) [
    | inl q ↦ ground (arith, p, q, fix_member-cmd dg p)
    | inr (both, q) ↦ ground (arith, p, q, fix_member-cmd dg p, fix_header-cmd first q)
  ]
]

-- The commands of a message, by the members of its datagram.
extract_cmds_lem :
    (top : Members) {raw : Json} {dg : Members}
    → find "datagram" top ≡ some raw
    → read_map raw ≡ some dg
    → extract_cmds (some (obj top)) ≡ cmds_in dg
unfolding extract_cmds
extract_cmds_lem top {raw = null} e w = ground arith
extract_cmds_lem top {raw = obj ms} e w = ground arith
extract_cmds_lem top {raw = raw} e w = absurd (ground arith)

cmds_in-marshal : (dg : Members) → cmds_in (marshal dg) ≡ cmds_in dg
cmds_in-marshal dg = ap cmds_of_payload (find-marshal "payload" dg)

-- From the repaired datagram the analyses read the same commands as from the datagram before, or they
-- read none from that (its `cmd` is a bare value).
pub extract_cmds-fixup_spine_datagram :
    (j : Json)
    → (extract_cmds (some (fixup_spine_datagram j)) ≡ extract_cmds (some j))
      ⊎ (extract_cmds (some j) ≡ [])
unfolding fixup_spine_datagram
extract_cmds-fixup_spine_datagram (obj top) = elim (Option-cases (find "datagram" top)) [
  | inl b ↦ inl (ground (arith, b))
  | inr (raw, b) ↦ elim (Option-cases (read_map raw)) [
    | inl c ↦ inl (ground (arith, b, c))
    | inr (dg, c) ↦ elim (Option-cases (fix_datagram dg)) [
      | inl d ↦ inl (ground (arith, b, c, d))
      | inr (fixed, d) ↦
          let new = marshal (assign "datagram" (obj (marshal fixed)) top) in
          ground (
            arith,
            b,
            c,
            d,
            extract_cmds_lem top b c,
            cmds_in-marshal fixed,
            fix_datagram-cmd dg d,
            extract_cmds_lem new {raw = obj (marshal fixed)} {dg = marshal fixed}
                (find-marshal-assign "datagram" (obj (marshal fixed)) top) refl,
          )
    ]
  ]
]
extract_cmds-fixup_spine_datagram null = inl (ground arith)
extract_cmds-fixup_spine_datagram j = inl refl
