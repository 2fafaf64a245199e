-- ===== src/Parser/Fixup.antt =====
-- The arrays that the normalization has flattened are restored (internal/parser/spine.go:
-- `fixupSpineDatagram`, `fixJSONArrayField`; internal/parser/normalize.go: `fixupSliceFields`).
use eebus_tracer.Prelude.{
  String, Bool, true, false, List, [], ◌∷◌, Option, none, some, if◌then◌else◌,
}
use eebus_tracer.Model.Payload.{Json, arr, obj, nil, cons, Members, find}
use eebus_tracer.Model.Object.{read_map, assign, marshal}

abbrev pub is_array : Json → Bool
is_array (arr js) = true
is_array _ = false

-- The map with the field's value in brackets, if the field is there and is no array.
unfoldable pub wrap_field : String → Members → Option Members
unfolding find assign
wrap_field k ms = elim (find k ms) [
  | none ↦ none
  | some v ↦ if is_array v then none else some (assign k (arr (cons v nil)) ms)
]

-- `fixJSONArrayField`; `none` where it did not fix anything.
unfoldable pub fix_json_array_field : Json → String → Option Json
unfolding wrap_field marshal
fix_json_array_field j field = elim (read_map j) [
  | none ↦ none
  | some ms ↦ elim (wrap_field field ms) [ none ↦ none | some fixed ↦ some (obj (marshal fixed)) ]
]

-- The loop over the fields of the target type, with `changed`.
unfoldable pub wrap_fields : List String → Members → Bool → Members × Bool
unfolding wrap_field
wrap_fields [] ms changed = (ms, changed)
wrap_fields (k ∷ ks) ms changed = elim (wrap_field k ms) [
  | none ↦ wrap_fields ks ms changed
  | some fixed ↦ wrap_fields ks fixed true
]

-- `fixupSliceFields`, by the JSON names of the slices in the target type.
unfoldable pub fixup_slice_fields : Json → List String → Json
unfolding wrap_fields marshal
fixup_slice_fields j slices = elim (read_map j) [
  | none ↦ j
  | some ms ↦ let r = wrap_fields slices ms false in if r.1 then obj (marshal r.0) else j
]

-- The map with a field of one of its members fixed, if that changes anything.
unfoldable pub fix_member : String → String → Members → Option Members
unfolding find fix_json_array_field assign
fix_member k field ms = elim (find k ms) [
  | none ↦ none
  | some j ↦ elim (fix_json_array_field j field) [
    | none ↦ none
    | some fixed ↦ some (assign k fixed ms)
  ]
]

-- The loop over the addresses of the header, with `hdrChanged`.
unfoldable pub fix_addresses : List String → Members → Bool → Members × Bool
unfolding fix_member
fix_addresses [] hdr changed = (hdr, changed)
fix_addresses (k ∷ ks) hdr changed = elim (fix_member k "entity" hdr) [
  | none ↦ fix_addresses ks hdr changed
  | some fixed ↦ fix_addresses ks fixed true
]

abbrev pub address_keys : List String
address_keys = "addressSource" ∷ "addressDestination" ∷ "addressOriginator" ∷ []

-- `dg["header"]` with its addresses fixed, if that changes anything.
unfoldable pub fix_header : Members → Option Members
unfolding find fix_addresses assign marshal
fix_header dg = elim (find "header" dg) [
  | none ↦ none
  | some h ↦ elim (read_map h) [
    | none ↦ none
    | some hdr ↦
        let r = fix_addresses address_keys hdr false in
        if r.1 then some (assign "header" (obj (marshal r.0)) dg) else none
  ]
]

-- The two steps one after the other, if one of them changes anything.
unfoldable pub fix_datagram : Members → Option Members
unfolding fix_member fix_header
fix_datagram dg = elim (fix_member "payload" "cmd" dg) [
  | none ↦ fix_header dg
  | some fixed ↦ elim (fix_header fixed) [ none ↦ some fixed | some both ↦ some both ]
]

-- `fixupSpineDatagram`
unfoldable pub fixup_spine_datagram : Json → Json
unfolding find fix_datagram assign marshal
fixup_spine_datagram j = elim (read_map j) [
  | none ↦ j
  | some top ↦ elim (find "datagram" top) [
    | none ↦ j
    | some raw ↦ elim (read_map raw) [
      | none ↦ j
      | some dg ↦ elim (fix_datagram dg) [
        | none ↦ j
        | some fixed ↦ obj (marshal (assign "datagram" (obj (marshal fixed)) top))
      ]
    ]
  ]
]
