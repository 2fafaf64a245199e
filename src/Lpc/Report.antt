-- ===== src/Lpc/Report.antt =====
-- The records of the LPC report (internal/analysis/lpc_conformance.go) and of the use cases
-- (internal/analysis/usecases.go).
use eebus_tracer.Prelude.{ℕ, String, Bool, false, List, Option, none, some, string_eq}
use eebus_tracer.Prelude.Maps.{lookup}

-- `UseCaseInfo`
pub record UseCaseInfo : Type 0 where
  pub use_case_name : String
  pub abbreviation : String
  pub use_case_version : String
  pub available : Bool
  pub scenarios : List ℕ

-- `DeviceUseCases`
pub record DeviceUseCases : Type 0 where
  pub device_addr : String
  pub actor : String
  pub use_cases : List UseCaseInfo
  pub message_id : ℕ

-- `LPCVerdict`
pub data LpcVerdict : Type 0 where
  pass fail not_applicable inconclusive : LpcVerdict

-- `LPCEvidence`
pub record LpcEvidence : Type 0 where
  pub message_ids : List ℕ
  pub note : String
  pub timestamp : Option ℕ

-- `LPCCheckResult`
pub record LpcCheckResult : Type 0 where
  pub requirement_id : String
  pub title : String
  pub description : String
  pub atc_refs : List String
  pub verdict : LpcVerdict
  pub summary : String
  pub evidence : List LpcEvidence

-- `LPCSummary`
pub record LpcSummary : Type 0 where
  pub total : ℕ
  pub passed : ℕ
  pub failed : ℕ
  pub not_applicables : ℕ
  pub inconclusives : ℕ

-- A `map[string]bool` that holds nothing but true.
abbrev pub Devices : Type 0
Devices = List (String × Bool)

abbrev pub has : String → Devices → Bool
has k m = elim (lookup k m) [ none ↦ false | some b ↦ b ]
