-- ===== src/Subscriptions/Payload.antt =====
-- The subscription and binding entries of a SPINE payload (internal/analysis/subscriptions.go:
-- `extractCmds`, `extractSubAddrs`, `formatFeatureAddr` and the entries made of them). Members of an
-- object are found by their exact names.
mod Decode
unfoldable pub use Decode.*
use Prim.Native.String.{◌++◌ as append}
use eebus_tracer.Prelude.{
  ℕ, zero, suc, ◌/◌, ◌%◌, ◌^◌, String, List, [], ◌∷◌, Option, none, some, ◌==◌, nat_eq, string_eq,
  if◌then◌else◌, ltb, map, ◌++◌, get_elem?,
}
use eebus_tracer.Prelude.Int.{pos}
use eebus_tracer.Model.Payload.{Json, null, int, str, arr, obj, Members, end, items, find}

-- The two readings of `cmd` in `extractCmds`, as an array and then as a single object.
abbrev pub cmds_of : Option Json → List Json
cmds_of (some (arr js)) = items js
cmds_of (some (obj ms)) = obj ms ∷ []
cmds_of _ = []

-- `extractCmds`
unfoldable pub extract_cmds : Option Json → List Json
unfolding items find
extract_cmds spine_payload = elim (read_top spine_payload) [
  | none ↦ []
  | some top ↦ elim (read_struct (find "datagram" top)) [
    | none ↦ []
    | some datagram ↦ elim (read_struct (find "payload" datagram)) [
      | none ↦ []
      | some payload ↦ cmds_of (find "cmd" payload)
    ]
  ]
]

-- The first of the keys that the object has.
unfoldable pub first_member : List String → Members → Option Json
unfolding find
first_member [] ms = none
first_member (k ∷ ks) ms = elim (find k ms) [ none ↦ first_member ks ms | some j ↦ some j ]

-- The loop over `innerKeys`: an array with entries, or a single entry; else the next key.
unfoldable pub first_entries : List String → Members → List SubAddrInfo
unfolding find read_all read_sub_addr items
first_entries [] ms = []
first_entries (k ∷ ks) ms = elim (find k ms) [
  | none ↦ first_entries ks ms
  | some j ↦ elim j [
    | arr js ↦ elim (read_all read_sub_addr (items js)) [
      | none ↦ first_entries ks ms
      | some found ↦ elim found [ [] ↦ first_entries ks ms | a ∷ rest ↦ a ∷ rest ]
    ]
    | obj fields ↦ elim (read_sub_addr (obj fields)) [
      | none ↦ first_entries ks ms
      | some a ↦ a ∷ []
    ]
    | _ ↦ first_entries ks ms
  ]
]

-- `extractSubAddrs`
unfoldable pub extract_sub_addrs : Members → List String → List String → List SubAddrInfo
unfolding first_member first_entries
extract_sub_addrs cmd_map outer_keys inner_keys = elim (first_member outer_keys cmd_map) [
  | none ↦ []
  | some raw ↦ elim (read_struct (some raw)) [
    | none ↦ []
    | some inner ↦ first_entries inner_keys inner
  ]
]

-- The empty string where a pointer is nil.
abbrev pub text_or_empty : Option String → String
text_or_empty none = ""
text_or_empty (some s) = s

-- The character of `string(rune('0'+n%10))`.
abbrev pub digit : ℕ → String
digit n =
    text_or_empty (get_elem? ("0" ∷ "1" ∷ "2" ∷ "3" ∷ "4" ∷ "5" ∷ "6" ∷ "7" ∷ "8" ∷ "9" ∷ []) n)

-- The loop of `uintToStr`, on fuel.
unfoldable pub digits_loop : ℕ → ℕ → String → String
digits_loop zero n digits = digits
digits_loop (suc fuel) n digits =
    let rest = digits_loop fuel (n / 10) (append (digit (n % 10)) digits) in
    if ltb 0 n then rest else digits

-- `uintToStr`. A uint has at most 20 digits.
unfoldable pub uint_to_str : ℕ → String
unfolding digits_loop
uint_to_str n = if n == 0 then "0" else digits_loop 20 n ""

-- The loop of `formatFeatureAddr`, behind the first entity.
unfoldable pub dotted : List ℕ → String
unfolding uint_to_str
dotted [] = ""
dotted (e ∷ es) = append "." (append (uint_to_str e) (dotted es))

-- `formatFeatureAddr`
unfoldable pub format_feature_addr : List ℕ → ℕ → String
unfolding uint_to_str dotted
format_feature_addr [] feature = uint_to_str feature
format_feature_addr (e ∷ es) feature =
    append (uint_to_str e) (append (dotted es) (append "." (uint_to_str feature)))

abbrev device_in : Option Address → String
device_in none = ""
device_in (some a) = text_or_empty a.device

unfoldable pub feature_in : Option Address → String
unfolding format_feature_addr
feature_in none = ""
feature_in (some a) = elim a.feature [ none ↦ "" | some f ↦ format_feature_addr a.entity f ]

-- What `SubscriptionEntry` and `BindingEntry` are made of when they are extracted; `id` is the
-- subscription's or the binding's.
pub record EntryData : Type 0 where
  pub id : String
  pub client_device : String
  pub client_feature : String
  pub server_device : String
  pub server_feature : String
  pub server_feature_type : String

abbrev pub entry_data : (SubAddrInfo → Option String) → SubAddrInfo → EntryData
unfolding feature_in
entry_data id_of a = record {
  id = text_or_empty (id_of a);
  client_device = device_in a.client_address;
  client_feature = feature_in a.client_address;
  server_device = device_in a.server_address;
  server_feature = feature_in a.server_address;
  server_feature_type = text_or_empty a.server_feature_type;
}

-- The loop over the commands.
unfoldable pub extract_loop :
    List String → List String → (SubAddrInfo → Option String) → List Json → List EntryData
unfolding extract_sub_addrs entry_data
extract_loop outer inner id_of [] = []
extract_loop outer inner id_of (cmd ∷ cmds) = elim (read_struct (some cmd)) [
  | none ↦ extract_loop outer inner id_of cmds
  | some cmd_map ↦
      map (entry_data id_of) (extract_sub_addrs cmd_map outer inner)
      ++ extract_loop outer inner id_of cmds
]

-- `extractSubscriptionData`
unfoldable pub extract_subscription_data : Option Json → List EntryData
unfolding extract_cmds extract_loop
extract_subscription_data spine_payload =
    extract_loop
      ("nodeManagementSubscriptionData" ∷ "nodeManagementSubscriptionRequestCall"
        ∷ "nodeManagementSubscriptionDeleteCall" ∷ [])
      ("subscriptionEntry" ∷ "subscriptionRequest" ∷ "subscriptionDelete" ∷ [])
      (λ a. a.subscription_id) (extract_cmds spine_payload)

-- `extractBindingData`
unfoldable pub extract_binding_data : Option Json → List EntryData
unfolding extract_cmds extract_loop
extract_binding_data spine_payload =
    extract_loop
      ("nodeManagementBindingData" ∷ "nodeManagementBindingRequestCall"
        ∷ "nodeManagementBindingDeleteCall" ∷ [])
      ("bindingEntry" ∷ "bindingRequest" ∷ "bindingDelete" ∷ []) (λ a. a.binding_id)
      (extract_cmds spine_payload)
