-- ===== src/Model/Payload.antt =====
-- JSON values, and what the source reads of them by Go's encoding/json. A `json.RawMessage` is the
-- value that its bytes encode: the text of a payload was checked when the message was parsed.
use eebus_tracer.Prelude.{
  String, Bool, Option, none, some, List, [], ◌∷◌, ◌==◌, string_eq, if◌then◌else◌,
}
use eebus_tracer.Prelude.Int.{ℤ}

mutual
  pub data Json : Type 0 where
    null : Json
    bool : Bool → Json
    int : ℤ → Json
    real : String → Json  -- the literal of a number that is no integer
    str : String → Json
    arr : Items → Json
    obj : Members → Json

  pub data Items : Type 0 where
    nil : Items
    cons : Json → Items → Items

  pub data Members : Type 0 where
    end : Members
    member : String → Json → Members → Members

-- The elements of an array, each as a RawMessage.
unfoldable pub items : Items → List Json
items nil = []
items (cons j js) = j ∷ items js

-- A key of an object read into a map: of several members with one name the last counts.
unfoldable pub find : String → Members → Option Json
find k end = none
find k (member n j ms) =
    let here = if n == k then some j else none in elim (find k ms) [ none ↦ here | some v ↦ some v ]
