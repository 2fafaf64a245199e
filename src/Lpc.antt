-- ===== src/Lpc.antt =====
-- The heartbeat checks of the LPC conformance report (internal/analysis/lpc_conformance.go), with the
-- roles that the use cases announce. The check of the limit values reads floating-point numbers and is
-- left out.
pub mod Report
pub mod Scan
pub mod Verdicts
pub mod Counts
pub use Report.*
use Prim.Native.String.{◌++◌ as append}
use eebus_tracer.Prelude.{
  ℕ, zero, suc, ◌+◌, String, Bool, true, false, not, ◌&&◌, ◌||◌, List, [], ◌∷◌, ◌++◌, Option, none,
  some, length, ◌==◌, string_eq, nat_eq, if◌then◌else◌,
}
use eebus_tracer.Prelude.Maps.{lookup, insert}
use eebus_tracer.Prelude.Int.{ℤ, pos, ltb_ℤ}
use eebus_tracer.Model.{Message}
use eebus_tracer.Heartbeat.{PairKey, HeartbeatGap, gaps_of, collect_heartbeat_gaps_by_pair}

-- `lpcCtx`
pub record LpcCtx : Type 0 where
  pub messages : List Message
  pub eg_devices : Devices
  pub cs_devices : Devices

-- The loop of `ucHasLPC` over the use cases.
abbrev pub any_lpc : List UseCaseInfo → Bool
any_lpc [] = false
any_lpc (uc ∷ ucs) = if uc.abbreviation == "LPC" then true else any_lpc ucs

-- `ucHasLPC`
abbrev pub uc_has_lpc : DeviceUseCases → Bool
uc_has_lpc duc = any_lpc duc.use_cases

-- `detectLPC`
abbrev pub detect_lpc : List DeviceUseCases → Bool
detect_lpc [] = false
detect_lpc (duc ∷ ducs) = if any_lpc duc.use_cases then true else detect_lpc ducs

-- The loop of `newLPCCtx`.
abbrev pub add_roles : List DeviceUseCases → LpcCtx → LpcCtx
unfolding insert
add_roles [] ctx = ctx
add_roles (duc ∷ ducs) ctx = add_roles ducs (
    if not (uc_has_lpc duc)
    then ctx
    else if duc.actor == "energyGuard"
    then record ctx { eg_devices = insert duc.device_addr true ctx.eg_devices }
    else if duc.actor == "controllableSystem"
    then record ctx { cs_devices = insert duc.device_addr true ctx.cs_devices }
    else ctx)

-- `newLPCCtx`
abbrev pub new_lpc_ctx : List Message → List DeviceUseCases → LpcCtx
new_lpc_ctx messages use_cases =
    add_roles use_cases (record { messages = messages; eg_devices = []; cs_devices = [] })

-- `lpcHeartbeatThreshold`, in nanoseconds.
abbrev pub lpc_heartbeat_threshold : ℤ
lpc_heartbeat_threshold = pos 60_000_000_000

-- The heartbeats that a role's devices sent.
abbrev pub total_heartbeats : Devices → List Message → ℕ
total_heartbeats role [] = 0
total_heartbeats role (msg ∷ msgs) =
    let rest = total_heartbeats role msgs in
    if not (msg.function_set == "DeviceDiagnosisHeartbeatData")
    then rest
    else if has msg.device_source role
    then suc rest
    else rest

-- The variables of the loop over the gaps.
pub record Intervals : Type 0 where
  pub violations : List LpcEvidence
  pub max_gap : ℤ
  pub gap_count : ℕ

abbrev pub is_late : HeartbeatGap → Bool
is_late g = ltb_ℤ lpc_heartbeat_threshold g.duration

-- What fmt prints: seconds with three decimals, and a number.
pub record Format : Type 0 where
  pub seconds : ℤ → String
  pub decimal : ℕ → String

module _ (fmt : Format) where
  -- `formatGapNote` in the evidence of a gap.
  abbrev pub gap_evidence : HeartbeatGap → LpcEvidence
  gap_evidence g = record {
    message_ids = g.from_id ∷ g.to_id ∷ [];
    note = append (fmt.seconds g.duration) "s gap between heartbeats";
    timestamp = some g.to;
  }

  unfoldable pub scan_gaps : List HeartbeatGap → Intervals → Intervals
  scan_gaps [] s = s
  scan_gaps (g ∷ gs) s = scan_gaps gs (record {
    violations = if is_late g then s.violations ++ gap_evidence g ∷ [] else s.violations;
    max_gap = if ltb_ℤ s.max_gap g.duration then g.duration else s.max_gap;
    gap_count = suc s.gap_count;
  })

  unfoldable pub scan_pairs :
      Devices → List PairKey → List (PairKey × List HeartbeatGap) → Intervals → Intervals
  unfolding scan_gaps
  scan_pairs role [] gaps s = s
  scan_pairs role (pair ∷ order) gaps s =
      scan_pairs role order gaps
        (if not (has pair.0 role) then s else scan_gaps (gaps_of pair gaps) s)

  -- `formatHeartbeatPassSummary`
  abbrev pub format_heartbeat_pass_summary : String → ℕ → ℤ → String
  format_heartbeat_pass_summary role count max_gap = append (fmt.decimal count) (
      append " "
        (append role (append " heartbeat interval(s), max " (append (fmt.seconds max_gap) "s"))))

  -- `formatHeartbeatFailSummary`
  abbrev pub format_heartbeat_fail_summary : String → ℕ → ℕ → ℤ → String
  format_heartbeat_fail_summary role viol count max_gap = append (fmt.decimal viol) (
      append "/" (
        append (fmt.decimal count) (
          append " " (
            append role (
              append " heartbeat gap(s) exceeded 60s (worst "
                (append (fmt.seconds max_gap) "s)"))))))

  -- The final switch of `checkHeartbeatFor`.
  unfoldable pub conclude : LpcCheckResult → String → ℕ → Intervals → LpcCheckResult
  conclude result role_label total s =
      if total == 0
      then record result {
        verdict = not_applicable;
        summary = append "No " (append role_label " heartbeats observed");
      }
      else if s.gap_count == 0
      then record result {
        verdict = inconclusive;
        summary =
            append "Only 1 " (append role_label " heartbeat observed — cannot measure intervals");
      }
      else if length s.violations == 0
      then record result {
        verdict = pass;
        summary = format_heartbeat_pass_summary role_label s.gap_count s.max_gap;
      }
      else record result {
        verdict = fail;
        summary =
            format_heartbeat_fail_summary role_label (length s.violations) s.gap_count s.max_gap;
        evidence = s.violations;
      }

  -- `checkHeartbeatFor`; `blank` has the requirement's texts and no evidence.
  unfoldable pub check_heartbeat_for :
      List Message → Devices → String → LpcCheckResult → LpcCheckResult
  unfolding scan_pairs conclude collect_heartbeat_gaps_by_pair
  check_heartbeat_for messages [] role_label blank = record blank {
    verdict = not_applicable;
    summary = append "No device announced LPC actor=" role_label;
  }
  check_heartbeat_for messages (device ∷ others) role_label blank =
      let collected = collect_heartbeat_gaps_by_pair messages in
      conclude blank role_label (total_heartbeats (device ∷ others) messages) (
        scan_pairs (device ∷ others) collected.0 collected.1
          (record { violations = []; max_gap = pos 0; gap_count = 0 }))

  -- The result before its verdict and summary, which every branch sets.
  abbrev pub blank_result : String → String → String → List String → LpcCheckResult
  blank_result requirement_id title description atc_refs = record {
    requirement_id = requirement_id;
    title = title;
    description = description;
    atc_refs = atc_refs;
    verdict = inconclusive;
    summary = "";
    evidence = [];
  }

  -- `checkEGHeartbeat`
  abbrev pub check_eg_heartbeat : LpcCtx → LpcCheckResult
  unfolding check_heartbeat_for
  check_eg_heartbeat ctx = check_heartbeat_for ctx.messages ctx.eg_devices "EG" (
      blank_result "LPC-TS-006" "EG heartbeat interval"
        "The heartbeat of the EG SHALL be sent at least every 60 seconds."
        ("ATC_COM_PT_EGHeartbeat_001" ∷ []))

  -- `checkCSHeartbeat`
  abbrev pub check_cs_heartbeat : LpcCtx → LpcCheckResult
  unfolding check_heartbeat_for
  check_cs_heartbeat ctx = check_heartbeat_for ctx.messages ctx.cs_devices "CS" (
      blank_result "LPC-TS-007" "CS heartbeat interval"
        "The heartbeat of the CS SHALL be sent at least every 60 seconds."
        ("ATC_COM_PT_CSHeartbeat_001" ∷ []))

-- The switch in the loop of `summarizeChecks`, and the loop.
abbrev pub count_one : LpcVerdict → LpcSummary → LpcSummary
count_one pass s = record s { passed = suc s.passed }
count_one fail s = record s { failed = suc s.failed }
count_one not_applicable s = record s { not_applicables = suc s.not_applicables }
count_one inconclusive s = record s { inconclusives = suc s.inconclusives }

abbrev pub count_checks : List LpcCheckResult → LpcSummary → LpcSummary
count_checks [] s = s
count_checks (c ∷ cs) s = count_checks cs (count_one c.verdict s)

-- `summarizeChecks`
abbrev pub summarize_checks : List LpcCheckResult → LpcSummary
summarize_checks checks = count_checks checks (record {
  total = length checks;
  passed = 0;
  failed = 0;
  not_applicables = 0;
  inconclusives = 0;
})
