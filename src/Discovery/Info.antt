-- ===== src/Discovery/Info.antt =====
-- The announcement of entities and features, as it is decoded
-- (internal/spineparse/spineparse.go: the structs in `ParseDiscoveryEntities`).
use Prim.Native.String.{◌++◌ as append}
use eebus_tracer.Prelude.{
  suc, ◌^◌, String, List, [], ◌∷◌, Option, none, some, nat_eq, if◌then◌else◌, ltb,
}
use eebus_tracer.Prelude.Int.{ℤ, pos, negsuc}
use eebus_tracer.Model.Payload.{Json, null, int, arr, Members, items, find}
use eebus_tracer.Subscriptions.Payload.{
  read_string, read_all, read_struct, text_or_empty, uint_to_str,
}

-- `DiscoveryFeature`
pub record DiscoveryFeature : Type 0 where
  pub address : String
  pub feature_type : String
  pub role : String
  pub functions : List String

-- `DiscoveryEntity`
pub record DiscoveryEntity : Type 0 where
  pub address : String
  pub entity_type : String
  pub features : List DiscoveryFeature

-- The entities that the first loop appends, and the features of the second with the addresses of
-- their entities.
pub record DiscoveryData : Type 0 where
  pub entities : List DiscoveryEntity
  pub features : List (String × DiscoveryFeature)

-- `json.Unmarshal` into an `*int`; the outer `none` is its error.
unfoldable pub read_int : Option Json → Option (Option ℤ)
read_int none = some none
read_int (some null) = some none
read_int (some (int (pos n))) = if ltb n (2 ^ 63) then some (some (pos n)) else none
read_int (some (int (negsuc n))) = if ltb n (2 ^ 63) then some (some (negsuc n)) else none
read_int _ = none

-- `strconv.Itoa`
abbrev pub itoa : ℤ → String
unfolding uint_to_str
itoa (pos n) = uint_to_str n
itoa (negsuc n) = append "-" (uint_to_str (suc n))

infixl 5 ◌>>=◌
abbrev ◌>>=◌ : {A B : Type 0} → Option A → (A → Option B) → Option B
none >>= f = none
some a >>= f = f a

-- A slice: each element is read; `none` is an error.
unfoldable pub read_slice : {A : Type 0} → (Json → Option A) → Option Json → Option (List A)
unfolding read_all items
read_slice read none = some []
read_slice read (some null) = some []
read_slice read (some (arr js)) = read_all read (items js)
read_slice read _ = none

-- A pointer to a struct: `some none` is nil, and `none` an error.
abbrev pub read_pointer : Option Json → Option (Option Members)
read_pointer none = some none
read_pointer (some null) = some none
read_pointer j = elim (read_struct j) [ none ↦ none | some ms ↦ some (some ms) ]

-- The values that are there.
abbrev pub present : {A : Type 0} → List (Option A) → List A
present [] = []
present (none ∷ xs) = present xs
present (some x ∷ xs) = x ∷ present xs

module _ (raw_text : Json → String) where
  -- The text of a `json.RawMessage`.
  abbrev pub text_of_raw : Option Json → String
  text_of_raw none = ""
  text_of_raw (some j) = raw_text j

  -- An entity, unless it has no description or no address.
  unfoldable pub read_entity : Json → Option (Option DiscoveryEntity)
  unfolding find read_string
  read_entity j = do
    info ← read_struct (some j)
    description ← read_pointer (find "description" info)
    elim description [
      | none ↦ some none
      | some d ↦ do
        address ← read_pointer (find "entityAddress" d)
        entity_type ← read_string (find "entityType" d)
        some (elim address [
          | none ↦ none
          | some a ↦ some (record {
            address = text_of_raw (find "entity" a);
            entity_type = text_or_empty entity_type;
            features = [];
          })
        ])
    ]

  unfoldable pub read_function : Json → Option (Option String)
  unfolding find read_string
  read_function j = do ms ← read_struct (some j); read_string (find "function" ms)

  -- The feature of a description with its address.
  abbrev feature_of :
      Members
      → Option ℤ
      → Option String
      → Option String
      → List (Option String)
      → String × DiscoveryFeature
  unfolding find
  feature_of a feature feature_type role functions = (
    text_of_raw (find "entity" a),
    record {
      address = elim feature [ none ↦ "" | some z ↦ itoa z ];
      feature_type = text_or_empty feature_type;
      role = text_or_empty role;
      functions = present functions;
    },
  )

  -- The address of a feature with its number, if there is one.
  unfoldable pub read_feature_address : Option Json → Option (Option (Members × Option ℤ))
  unfolding find read_int
  read_feature_address j = do
    address ← read_pointer j
    elim address [
      | none ↦ some none
      | some a ↦ do feature ← read_int (find "feature" a); some (some (a, feature))
    ]

  -- A feature, unless it has no description or no address.
  unfoldable pub read_feature : Json → Option (Option (String × DiscoveryFeature))
  unfolding find read_string read_slice read_function read_feature_address feature_of
  read_feature j = do
    info ← read_struct (some j)
    description ← read_pointer (find "description" info)
    elim description [
      | none ↦ some none
      | some d ↦ do
        address ← read_feature_address (find "featureAddress" d)
        feature_type ← read_string (find "featureType" d)
        role ← read_string (find "role" d)
        functions ← read_slice read_function (find "supportedFunction" d)
        some (elim address [
          | none ↦ none
          | some a ↦ some (feature_of a.0 a.1 feature_type role functions)
        ])
    ]

  -- The whole announcement.
  unfoldable pub read_discovery : Json → Option DiscoveryData
  unfolding find read_slice read_entity read_feature
  read_discovery j = do
    ms ← read_struct (some j)
    entities ← read_slice read_entity (find "entityInformation" ms)
    features ← read_slice read_feature (find "featureInformation" ms)
    some (record { entities = present entities; features = present features })
