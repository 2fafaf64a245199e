-- ===== src/Model/Object.antt =====
-- JSON objects as Go maps of type `map[string]json.RawMessage` (encoding/json). Such a map is the list
-- of its members, of which the last one with a name counts.
use text.Mathlib.Text.{is_lt}
use Prim.Native.String.{compare}
use eebus_tracer.Prelude.{
  ◌≡◌, String, Bool, Option, none, some, ◌==◌, string_eq, if◌then◌else◌, arith,
}
use eebus_tracer.Model.Payload.{Json, null, obj, Members, end, member, find}

-- The order of Go's strings.
abbrev text_lt : String → String → Bool
text_lt s t = is_lt (compare s t)

-- `json.Unmarshal` of a value into a map; `none` is its error. `null` gives the nil map.
abbrev pub read_map : Json → Option Members
read_map null = some end
read_map (obj ms) = some ms
read_map _ = none

-- `m[k] = v`
unfoldable pub assign : String → Json → Members → Members
assign k v end = member k v end
assign k v (member n j ms) = member n j (assign k v ms)

-- A member is put into sorted ones, unless a later member has its name.
unfoldable pub put_absent : String → Json → Members → Members
put_absent k v end = member k v end
put_absent k v (member n j ms) =
    let rest = put_absent k v ms in
    if k == n
    then member n j ms
    else if text_lt k n
    then member k v (member n j ms)
    else member n j rest

-- `json.Marshal` of a map writes its keys in their order.
unfoldable pub marshal : Members → Members
unfolding put_absent
marshal end = end
marshal (member n j ms) = put_absent n j (marshal ms)

pub find-assign :
    (k : String) (v : Json) (q : String) (ms : Members)
    → find q (assign k v ms) ≡ (if k == q then some v else find q ms)
unfolding find assign
find-assign k v q end = ground arith
find-assign k v q (member n j ms) = ground (arith, find-assign k v q ms)

find-put_absent :
    (k : String) (v : Json) (q : String) (ms : Members)
    → find q (put_absent k v ms)
      ≡ elim (find q ms) [ none ↦ if k == q then some v else none | some w ↦ some w ]
unfolding find put_absent
find-put_absent k v q end = ground arith
find-put_absent k v q (member n j ms) = ground (
  arith,
  find-put_absent k v q ms,
  string_eq.equals_iff k n,
  string_eq.equals_iff k q,
  string_eq.equals_iff n q,
)

-- What is written is read back: every key has the value that it had in the map.
pub find-marshal : (q : String) (ms : Members) → find q (marshal ms) ≡ find q ms
unfolding find marshal
find-marshal q end = ground arith
find-marshal q (member n j ms) =
    ground (arith, find-marshal q ms, find-put_absent n j q (marshal ms))
