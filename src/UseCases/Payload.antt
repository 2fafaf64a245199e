-- ===== src/UseCases/Payload.antt =====
-- The announcements in a payload (internal/analysis/usecases.go: `extractUseCaseData`,
-- `parseJSONArrayOrSingle`). Members are found by their exact names.
use eebus_tracer.Prelude.{ℕ, String, Bool, true, List, [], ◌∷◌, ◌++◌, Option, none, some}
use eebus_tracer.Model.Payload.{Json, null, bool, arr, obj, Members, items, find}
use eebus_tracer.Lpc.Report.{UseCaseInfo}
use eebus_tracer.Subscriptions.Payload.{
  read_string, read_uints, read_all, read_struct, extract_cmds, text_or_empty,
}
use eebus_tracer.UseCases.Names.{abbreviation_of}

-- `ucSupportRaw`
pub record UcSupportRaw : Type 0 where
  pub use_case_name : Option String
  pub use_case_version : Option String
  pub use_case_available : Option Bool
  pub scenario_support : List ℕ

-- `ucInfoRaw`; its address is read and not used.
pub record UcInfoRaw : Type 0 where
  pub actor : Option String
  pub use_case_support : List UcSupportRaw

-- `json.Unmarshal` into a `*bool`; the outer `none` is its error.
unfoldable pub read_bool : Option Json → Option (Option Bool)
read_bool none = some none
read_bool (some null) = some none
read_bool (some (bool b)) = some (some b)
read_bool _ = none

infixl 5 ◌>>=◌
abbrev ◌>>=◌ : {A B : Type 0} → Option A → (A → Option B) → Option B
none >>= f = none
some a >>= f = f a

unfoldable support_members : Members → Option UcSupportRaw
unfolding read_string read_bool read_uints find
support_members ms = do
  name ← read_string (find "useCaseName" ms)
  version ← read_string (find "useCaseVersion" ms)
  available ← read_bool (find "useCaseAvailable" ms)
  scenarios ← read_uints (find "scenarioSupport" ms)
  some (record {
    use_case_name = name;
    use_case_version = version;
    use_case_available = available;
    scenario_support = scenarios;
  })

unfoldable pub read_support : Json → Option UcSupportRaw
unfolding support_members
read_support j = do ms ← read_struct (some j); support_members ms

-- A slice of these: it has to be an array.
unfoldable pub read_supports : Option Json → Option (List UcSupportRaw)
unfolding read_all read_support items
read_supports none = some []
read_supports (some null) = some []
read_supports (some (arr js)) = read_all read_support (items js)
read_supports _ = none

unfoldable pub read_info : Json → Option UcInfoRaw
unfolding read_string read_supports find
read_info j = do
  ms ← read_struct (some j)
  address ← read_struct (find "address" ms)
  device ← read_string (find "device" address)
  actor ← read_string (find "actor" ms)
  supports ← read_supports (find "useCaseSupport" ms)
  some (record { actor = actor; use_case_support = supports })

-- `parseJSONArrayOrSingle` of `ucInfoRaw`s.
unfoldable pub parse_json_array_or_single : Json → String → List UcInfoRaw
unfolding find read_all read_info items
parse_json_array_or_single j field = elim (read_struct (some j)) [
  | none ↦ []
  | some ms ↦ elim (find field ms) [
    | none ↦ []
    | some raw ↦ elim raw [
      | arr js ↦ elim (read_all read_info (items js)) [ none ↦ [] | some infos ↦ infos ]
      | obj fields ↦ elim (read_info (obj fields)) [ none ↦ [] | some info ↦ info ∷ [] ]
      | _ ↦ []
    ]
  ]
]

-- `useCaseInfoGroup`
pub record UseCaseInfoGroup : Type 0 where
  pub actor : String
  pub use_cases : List UseCaseInfo

abbrev true_unless : Option Bool → Bool
true_unless none = true
true_unless (some b) = b

-- The use cases of an entry: those without a name are left out.
unfoldable pub use_cases_of : List UcSupportRaw → List UseCaseInfo
unfolding abbreviation_of
use_cases_of [] = []
use_cases_of (uc ∷ ucs) = elim uc.use_case_name [
  | none ↦ use_cases_of ucs
  | some name ↦
      record {
        use_case_name = name;
        abbreviation = abbreviation_of name;
        use_case_version = text_or_empty uc.use_case_version;
        available = true_unless uc.use_case_available;
        scenarios = uc.scenario_support;
      }
      ∷ use_cases_of ucs
]

-- The loop over the entries: those without a use case are left out.
unfoldable pub groups_of : List UcInfoRaw → List UseCaseInfoGroup
unfolding use_cases_of
groups_of [] = []
groups_of (info ∷ infos) = elim (use_cases_of info.use_case_support) [
  | [] ↦ groups_of infos
  | uc ∷ ucs ↦ record { actor = text_or_empty info.actor; use_cases = uc ∷ ucs } ∷ groups_of infos
]

-- The loop over the commands.
unfoldable pub groups_in : List Json → List UseCaseInfoGroup
unfolding find parse_json_array_or_single groups_of
groups_in [] = []
groups_in (cmd ∷ cmds) = elim (read_struct (some cmd)) [
  | none ↦ groups_in cmds
  | some cmd_map ↦ elim (find "nodeManagementUseCaseData" cmd_map) [
    | none ↦ groups_in cmds
    | some raw ↦ groups_of (parse_json_array_or_single raw "useCaseInformation") ++ groups_in cmds
  ]
]

-- `extractUseCaseData`
unfoldable pub extract_use_case_data : Option Json → List UseCaseInfoGroup
unfolding extract_cmds groups_in
extract_use_case_data spine_payload = groups_in (extract_cmds spine_payload)
