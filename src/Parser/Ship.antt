-- ===== src/Parser/Ship.antt =====
-- The kinds of SHIP messages (internal/parser/ship.go).
use Prim.Native.String.{◌++◌ as append}
use eebus_tracer.Prelude.{
  ℕ, String, List, Option, none, some, is_some, ◌⊎◌, inl, inr, if◌then◌else◌,
}
use eebus_tracer.Model.Payload.{Json, Members, find}
use eebus_tracer.Model.Object.{read_map}
use eebus_tracer.Model.{ShipMsgType}
use eebus_tracer.Parser.Library.{Decoders}
use eebus_tracer.Parser.Fixup.{fixup_slice_fields}

-- `shipClassification`
pub record ShipClassification : Type 0 where
  pub msg_type : ShipMsgType
  pub ship_payload : Json
  pub data_payload : Option Json  -- `none` if empty

-- `extractPayload`; `none` where it is empty.
unfoldable pub extract_payload : Json → Option Json
unfolding find
extract_payload j = elim (read_map j) [ none ↦ none | some fields ↦ find "payload" fields ]

module _ (lib : Decoders) where
  -- A message whose fields are checked against the struct type of ship-go; `name` is what the error
  -- calls it.
  unfoldable pub checked : ShipMsgType → String → Json → Option Json → String ⊎ ShipClassification
  unfolding fixup_slice_fields
  checked t name j payload =
      elim (lib.unmarshal_ship t (fixup_slice_fields j (lib.slice_fields t))) [
        | some e ↦ inl (append "unmarshal " (append name (append ": " e)))
        | none ↦ inr (record { msg_type = t; ship_payload = j; data_payload = payload })
      ]

  abbrev pub unchecked : ShipMsgType → Json → String ⊎ ShipClassification
  unchecked t j = inr (record { msg_type = t; ship_payload = j; data_payload = none })

  -- `classifyShipMessage` on the members of the message.
  unfoldable pub classify_members : Json → Members → String ⊎ ShipClassification
  unfolding find checked extract_payload
  classify_members j raw =
      if is_some (find "connectionHello" raw)
      then checked ShipMsgType.connection_hello "connectionHello" j none
      else if is_some (find "messageProtocolHandshake" raw)
      then checked ShipMsgType.protocol_handshake "messageProtocolHandshake" j none
      else if is_some (find "connectionPinState" raw)
      then checked ShipMsgType.connection_pin_state "connectionPinState" j none
      else if is_some (find "accessMethods" raw)
      then unchecked ShipMsgType.access_methods j
      else if is_some (find "accessMethodsRequest" raw)
      then unchecked ShipMsgType.access_methods j
      else if is_some (find "connectionClose" raw)
      then checked ShipMsgType.connection_close "connectionClose" j none
      else elim (find "data" raw) [
        | some data_raw ↦ checked ShipMsgType.data_msg "ship data" j (extract_payload data_raw)
        | none ↦ unchecked ShipMsgType.unknown j
      ]

  -- `classifyShipMessage`
  unfoldable pub classify_ship_message : List ℕ → String ⊎ ShipClassification
  unfolding classify_members
  classify_ship_message bytes =
      let failed : String ⊎ ShipClassification =
        inl (append "unmarshal SHIP message: " (lib.read_error bytes)) in
      elim (lib.read_json bytes) [
        | none ↦ failed
        | some j ↦ elim (read_map j) [ none ↦ failed | some raw ↦ classify_members j raw ]
      ]
