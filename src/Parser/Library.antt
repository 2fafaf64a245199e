-- ===== src/Parser/Library.antt =====
-- What the parser takes from other modules: github.com/enbility/ship-go and spine-go, and the text of
-- JSON and of its errors.
use eebus_tracer.Prelude.{ℕ, String, List, Option, ◌⊎◌}
use eebus_tracer.Model.Payload.{Json}
use eebus_tracer.Model.{ShipMsgType}

-- The fields of spine-go's `Datagram` that the parser reads; `cmds` holds `DataName()` of each command.
pub record FeatureAddress : Type 0 where
  pub device : Option String
  pub entity : List ℕ
  pub feature : Option ℕ

pub record Datagram : Type 0 where
  pub cmd_classifier : Option String
  pub msg_counter : Option ℕ
  pub msg_counter_reference : Option ℕ
  pub address_source : Option FeatureAddress
  pub address_destination : Option FeatureAddress
  pub cmds : List String

-- `json_from_eebus_json` is `ship.JsonFromEEBUSJson`. `read_json` is the value of a text, if it has
-- one, and `read_error` the error of reading it into a map where that fails. Of the struct type that
-- ship-go has for a message type, `slice_fields` are the JSON names of the fields that are slices, and
-- `unmarshal_ship` is the error of reading a value into it. `decode_datagram` reads a value into
-- spine-go's `Datagram`.
pub record Decoders : Type 0 where
  pub json_from_eebus_json : List ℕ → List ℕ
  pub read_json : List ℕ → Option Json
  pub read_error : List ℕ → String
  pub slice_fields : ShipMsgType → List String
  pub unmarshal_ship : ShipMsgType → Json → Option String
  pub decode_datagram : Json → String ⊎ Datagram
