-- ===== src/Subscriptions/Payload/Decode.antt =====
-- What encoding/json reads into the structs of internal/analysis/subscriptions.go (`subAddrInfo`).
use eebus_tracer.Prelude.{ℕ, ◌^◌, String, List, [], ◌∷◌, Option, none, some, if◌then◌else◌, ltb}
use eebus_tracer.Prelude.Int.{pos}
use eebus_tracer.Model.Payload.{Json, null, int, str, arr, obj, Members, end, items, find}

-- The address structure in `subAddrInfo`.
pub record Address : Type 0 where
  pub device : Option String
  pub entity : List ℕ
  pub feature : Option ℕ

-- `subAddrInfo`
pub record SubAddrInfo : Type 0 where
  pub subscription_id : Option String
  pub binding_id : Option String
  pub server_feature_type : Option String
  pub client_address : Option Address
  pub server_address : Option Address

-- `json.Unmarshal` into a `*string`, a `uint`, a `*uint`, a `[]uint`; the outer `none` is its error.
unfoldable pub read_string : Option Json → Option (Option String)
read_string none = some none
read_string (some null) = some none
read_string (some (str s)) = some (some s)
read_string _ = none

unfoldable pub read_uint : Json → Option ℕ
read_uint (int (pos n)) = if ltb n (2 ^ 64) then some n else none
read_uint null = some 0
read_uint _ = none

unfoldable pub read_opt_uint : Option Json → Option (Option ℕ)
unfolding read_uint
read_opt_uint none = some none
read_opt_uint (some null) = some none
read_opt_uint (some j) = elim (read_uint j) [ none ↦ none | some n ↦ some (some n) ]

-- Every element, or the error of one of them.
unfoldable pub read_all {ℓ} : {A : Type ℓ} → (Json → Option A) → List Json → Option (List A)
read_all read [] = some []
read_all read (j ∷ js) = elim (read j) [
  | none ↦ none
  | some a ↦ elim (read_all read js) [ none ↦ none | some as' ↦ some (a ∷ as') ]
]

unfoldable pub read_uints : Option Json → Option (List ℕ)
unfolding read_all read_uint items
read_uints none = some []
read_uints (some null) = some []
read_uints (some (arr js)) = read_all read_uint (items js)
read_uints _ = none

unfoldable pub read_address : Option Json → Option (Option Address)
unfolding read_string read_uints read_opt_uint find
read_address none = some none
read_address (some null) = some none
read_address (some (obj ms)) = elim (read_string (find "device" ms)) [
  | none ↦ none
  | some device ↦ elim (read_uints (find "entity" ms)) [
    | none ↦ none
    | some entity ↦ elim (read_opt_uint (find "feature" ms)) [
      | none ↦ none
      | some feature ↦ some (some (record { device = device; entity = entity; feature = feature }))
    ]
  ]
]
read_address _ = none

abbrev pub read_sub_members : Members → Option SubAddrInfo
unfolding read_string read_address find
read_sub_members ms = elim (read_string (find "subscriptionId" ms)) [
  | none ↦ none
  | some sid ↦ elim (read_string (find "bindingId" ms)) [
    | none ↦ none
    | some bid ↦ elim (read_string (find "serverFeatureType" ms)) [
      | none ↦ none
      | some sft ↦ elim (read_address (find "clientAddress" ms)) [
        | none ↦ none
        | some client ↦ elim (read_address (find "serverAddress" ms)) [
          | none ↦ none
          | some server ↦ some (record {
            subscription_id = sid;
            binding_id = bid;
            server_feature_type = sft;
            client_address = client;
            server_address = server;
          })
        ]
      ]
    ]
  ]
]

unfoldable pub read_sub_addr : Json → Option SubAddrInfo
unfolding read_sub_members
read_sub_addr null = read_sub_members end
read_sub_addr (obj ms) = read_sub_members ms
read_sub_addr _ = none

-- A struct-typed field: its members, none if it is absent or null; `none` is the error.
abbrev pub read_struct : Option Json → Option Members
read_struct none = some end
read_struct (some null) = some end
read_struct (some (obj ms)) = some ms
read_struct _ = none

abbrev pub read_top : Option Json → Option Members
read_top none = none
read_top (some j) = read_struct (some j)
