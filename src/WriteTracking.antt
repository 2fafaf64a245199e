-- ===== src/WriteTracking.antt =====
-- The effective state of the writes in a trace (internal/api/writetracking.go: `buildEffectiveState`).
-- The numbers of an entry are carried along and never computed with: `Value` stands for float64.
pub mod Effective
use eebus_tracer.Prelude.{ℕ, String, Bool, List, Option, none, some, string_eq}
use eebus_tracer.Subscriptions.Tables.{Table, no_entries, upsert_all, collect}

module _ (Value : Type 0) where
  -- `WriteEntry`
  pub record WriteEntry : Type 0 where
    pub timestamp : ℕ
    pub message_id : ℕ
    pub source : String
    pub dest : String
    pub data_type : String
    pub item_id : String
    pub label : String
    pub unit : String
    pub scope_type : String
    pub value : Value
    pub is_active : Option Bool
    pub result : String
    pub latency_ms : Option Value
    pub duration_ms : Option Value

  -- `EffectiveStateEntry`
  pub record EffectiveStateEntry : Type 0 where
    pub item_id : String
    pub label : String
    pub unit : String
    pub scope_type : String
    pub data_type : String
    pub value : Value
    pub is_active : Option Bool
    pub result : String
    pub since : ℕ
    pub message_id : ℕ

module _ {Value : Type 0} where
  abbrev pub item_of : WriteEntry Value → String
  item_of e = e.item_id

  abbrev pub state_item : EffectiveStateEntry Value → String
  state_item s = s.item_id

  -- The state that an entry stands for.
  abbrev pub effective_entry : WriteEntry Value → EffectiveStateEntry Value
  effective_entry e = record {
    item_id = e.item_id;
    label = e.label;
    unit = e.unit;
    scope_type = e.scope_type;
    data_type = e.data_type;
    value = e.value;
    is_active = e.is_active;
    result = e.result;
    since = e.timestamp;
    message_id = e.message_id;
  }

  -- `lastByID` and `idOrder` after the first loop.
  abbrev pub last_by_id : List (WriteEntry Value) → Table String (WriteEntry Value)
  last_by_id entries = upsert_all item_of (λ e. e) entries no_entries

  -- `buildEffectiveState`; `none` would be an id that is missing in the map, for which the source has
  -- the zero entry.
  unfoldable pub build_effective_state :
      List (WriteEntry Value) → Option (List (EffectiveStateEntry Value))
  build_effective_state entries =
      collect effective_entry (last_by_id entries).order (last_by_id entries).entries
