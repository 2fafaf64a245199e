-- ===== src/Lpc/Counts.antt =====
-- The counts in the header of the LPC report (internal/analysis/lpc_conformance.go:
-- `summarizeChecks`).
use eebus_tracer.Prelude.{ℕ, ◌+◌, ◌≡◌, Bool, true, false, List, [], ◌∷◌, length, arith}
use eebus_tracer.Lpc.{
  LpcVerdict, pass, fail, not_applicable, inconclusive, LpcCheckResult, LpcSummary, count_one,
  count_checks, summarize_checks,
}

-- One for a verdict that is asked for.
abbrev pub one_if : Bool → ℕ
one_if true = 1
one_if false = 0

-- The checks with a verdict.
abbrev pub with_verdict : (LpcVerdict → Bool) → List LpcCheckResult → ℕ
with_verdict is [] = 0
with_verdict is (c ∷ cs) = let rest = with_verdict is cs in one_if (is c.verdict) + rest

abbrev pub is_pass : LpcVerdict → Bool
is_pass pass = true
is_pass _ = false

abbrev pub is_fail : LpcVerdict → Bool
is_fail fail = true
is_fail _ = false

abbrev pub counted : LpcSummary → ℕ
counted s = s.passed + s.failed + s.not_applicables + s.inconclusives

count_one_lem :
    (v : LpcVerdict) (s : LpcSummary)
    → ((count_one v s).total ≡ s.total)
      × (counted (count_one v s) ≡ counted s + 1)
      × ((count_one v s).passed ≡ s.passed + one_if (is_pass v))
      × ((count_one v s).failed ≡ s.failed + one_if (is_fail v))
count_one_lem pass s = ground arith
count_one_lem fail s = ground arith
count_one_lem not_applicable s = ground arith
count_one_lem inconclusive s = ground arith

count_checks_lem :
    (cs : List LpcCheckResult) (s : LpcSummary)
    → ((count_checks cs s).total ≡ s.total)
      × (counted (count_checks cs s) ≡ counted s + length cs)
      × ((count_checks cs s).passed ≡ s.passed + with_verdict is_pass cs)
      × ((count_checks cs s).failed ≡ s.failed + with_verdict is_fail cs)
count_checks_lem [] s = ground arith
count_checks_lem (c ∷ cs) s =
    ground (arith, count_checks_lem cs (count_one c.verdict s), count_one_lem c.verdict s)

-- The four counts of the summary add up to its total, the number of the checks, and the numbers of
-- those that pass and fail are right.
pub summarize_checks_lem :
    (cs : List LpcCheckResult)
    → ((summarize_checks cs).total ≡ length cs)
      × (counted (summarize_checks cs) ≡ (summarize_checks cs).total)
      × ((summarize_checks cs).passed ≡ with_verdict is_pass cs)
      × ((summarize_checks cs).failed ≡ with_verdict is_fail cs)
summarize_checks_lem cs =
    let start : LpcSummary = record {
      total = length cs;
      passed = 0;
      failed = 0;
      not_applicables = 0;
      inconclusives = 0;
    } in
    let h = count_checks_lem cs start in ground (arith, h)
