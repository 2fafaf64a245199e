-- ===== src/Parser/Spine.antt =====
-- SPINE datagrams (internal/parser/spine.go).
use Prim.Native.String.{◌++◌ as append}
use eebus_tracer.Prelude.{
  ℕ, String, List, [], ◌∷◌, Option, none, some, ◌⊎◌, inl, inr, ◌==◌, string_eq, if◌then◌else◌, map,
}
use eebus_tracer.Model.Payload.{Json}
use eebus_tracer.Subscriptions.Payload.{uint_to_str}
use eebus_tracer.Parser.Library.{Decoders, Datagram, FeatureAddress}
use eebus_tracer.Parser.Fixup.{fixup_spine_datagram}

-- `SpineResult`
pub record SpineResult : Type 0 where
  pub cmd_classifier : String
  pub function_set : String
  pub msg_counter : String
  pub msg_counter_ref : String
  pub device_source : String
  pub device_dest : String
  pub entity_source : String
  pub entity_dest : String
  pub feature_source : String
  pub feature_dest : String
  pub spine_payload : Json

-- `strings.Join`
unfoldable pub join : List String → String → String
join [] sep = ""
join (s ∷ []) sep = s
join (s ∷ t ∷ ts) sep = append s (append sep (join (t ∷ ts) sep))

-- `deviceAddrString`
unfoldable pub device_addr_string : Option String → String
device_addr_string none = ""
device_addr_string (some d) = d

-- `entityAddrString`; `strconv.FormatUint` in base 10 gives the decimal digits, as `uintToStr` does.
unfoldable pub entity_addr_string : List ℕ → String
unfolding join uint_to_str
entity_addr_string e = join (map uint_to_str e) "."

-- `featureAddrString`
unfoldable pub feature_addr_string : Option ℕ → String
unfolding uint_to_str
feature_addr_string none = ""
feature_addr_string (some f) = uint_to_str f

-- The texts of an address that may be missing, in the order device, entity, feature.
unfoldable pub address_texts : Option FeatureAddress → String × String × String
unfolding device_addr_string entity_addr_string feature_addr_string
address_texts none = ("", "", "")
address_texts (some a) =
    (device_addr_string a.device, entity_addr_string a.entity, feature_addr_string a.feature)

-- The name of the first command, if there is one and it has a name.
unfoldable pub function_set_of : List String → String
function_set_of [] = "unknown"
function_set_of (name ∷ names) = if name == "" then "unknown" else name

-- What `parseSpineDatagram` takes from the struct.
unfoldable pub spine_result : Json → Datagram → SpineResult
unfolding device_addr_string feature_addr_string address_texts function_set_of
spine_result fixed dg = record {
  cmd_classifier = device_addr_string dg.cmd_classifier;
  function_set = function_set_of dg.cmds;
  msg_counter = feature_addr_string dg.msg_counter;
  msg_counter_ref = feature_addr_string dg.msg_counter_reference;
  device_source = (address_texts dg.address_source).0;
  device_dest = (address_texts dg.address_destination).0;
  entity_source = (address_texts dg.address_source).1;
  entity_dest = (address_texts dg.address_destination).1;
  feature_source = (address_texts dg.address_source).2;
  feature_dest = (address_texts dg.address_destination).2;
  spine_payload = fixed;
}

-- `parseSpineDatagram`; `none` is the empty payload.
unfoldable pub parse_spine_datagram : Decoders → Option Json → String ⊎ SpineResult
unfolding fixup_spine_datagram spine_result
parse_spine_datagram lib none = inl "empty SPINE payload"
parse_spine_datagram lib (some payload) =
    let fixed = fixup_spine_datagram payload in
    elim (lib.decode_datagram fixed) [
      | inl e ↦ inl (append "unmarshal SPINE datagram: " e)
      | inr dg ↦ inr (spine_result fixed dg)
    ]
