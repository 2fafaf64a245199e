-- ===== src/Filter/RoundTrip.antt =====
-- A printed filter (internal/capture/source_dlt.go: `String`) is parsed back.
use eebus_tracer.Prelude.{
  ℕ, ◌≤◌, ◌≡◌, ◌≢◌, refl, ap, ◌∙◌, List, [], ◌∷◌, inr, length, map, All, All-append, nat_eq,
  list_eq, list_equals_iff, arith,
}
use eebus_tracer.Filter.{
  DltFilterRule, print_rule, print_filter, split, raw_rule, checked_rule, parse_parts,
  parse_dlt_filter,
}
use eebus_tracer.Filter.Words.{
  Clean, Without, trim_space-Clean, split-append, split_whole, cut-append, cut-none,
}

-- A rule that can be written: no white space, no comma, no colon in the APID, and the sizes.
pub record IsRule (r : DltFilterRule) : Type 0 where
  pub apid_named : r.apid ≢ []
  pub apid_clean : Clean r.apid
  pub apid_no_comma : Without b',' r.apid
  pub apid_no_colon : Without b':' r.apid
  pub apid_fits : length r.apid ≤ 4
  pub ctid_clean : Clean r.ctid
  pub ctid_no_comma : Without b',' r.ctid
  pub ctid_fits : length r.ctid ≤ 4

-- What both parts of a rule and the colon satisfy, the printed rule satisfies.
All-print_rule :
    (P : ℕ → Type 0) (r : DltFilterRule)
    → All P r.apid
    → P b':'
    → All P r.ctid
    → All P (print_rule r)
All-print_rule P r h k x = parts r.ctid x
  where
    parts : (ctid : List ℕ) → All P ctid → All P (print_rule (record r { ctid = ctid }))
    parts [] x = h
    parts (c ∷ ctid) x = All-append P r.apid (b':' ∷ c ∷ ctid) h (k, x)

raw_rule_lem :
    (apid ctid : List ℕ)
    → Without b':' apid
    → Clean apid
    → Clean ctid
    → raw_rule (print_rule (record { apid = apid; ctid = ctid }))
      ≡ record { apid = apid; ctid = ctid }
unfolding raw_rule
raw_rule_lem apid [] h k x = rw (raw_rule, cut-none b':' apid h) refl
raw_rule_lem apid (c ∷ ctid) h k x =
    rw
      (
        raw_rule,
        cut-append b':' apid (c ∷ ctid) h,
        trim_space-Clean apid k,
        trim_space-Clean (c ∷ ctid) x,
      )
      refl

raw_rule-print_rule : (r : DltFilterRule) → IsRule r → raw_rule (print_rule r) ≡ r
raw_rule-print_rule r h = raw_rule_lem r.apid r.ctid h.apid_no_colon h.apid_clean h.ctid_clean

checked_rule-IsRule : (part : List ℕ) (r : DltFilterRule) → IsRule r → checked_rule part r ≡ inr r
unfolding checked_rule
checked_rule-IsRule part r h =
    ground (arith, h.apid_named, h.apid_fits, h.ctid_fits, list_equals_iff r.apid [])

print_rule-named : (r : DltFilterRule) → IsRule r → print_rule r ≢ []
print_rule-named r h = append-named r.ctid
  where
    append-named : (ctid : List ℕ) → print_rule (record r { ctid = ctid }) ≢ []
    append-named [] e = h.apid_named e
    append-named (c ∷ ctid) e = ground (arith, e)

parse_parts-print_rule :
    (rules : List DltFilterRule) → All IsRule rules → parse_parts (map print_rule rules) ≡ inr rules
unfolding parse_parts
parse_parts-print_rule [] h = refl
parse_parts-print_rule (r ∷ rules) h =
    let trimmed =
      trim_space-Clean (print_rule r) (All-print_rule _ r h.0.apid_clean refl h.0.ctid_clean) in
    rw (trimmed, raw_rule-print_rule r h.0, checked_rule-IsRule (print_rule r) r h.0)
      (ground (
        arith,
        print_rule-named r h.0,
        list_equals_iff (print_rule r) [],
        parse_parts-print_rule rules h.1,
      ))

split-print_filter :
    (r : DltFilterRule) (rules : List DltFilterRule)
    → All IsRule (r ∷ rules)
    → split b',' (print_filter (r ∷ rules)) ≡ map print_rule (r ∷ rules)
unfolding print_filter
split-print_filter r [] h =
    split_whole b',' (print_rule r) (All-print_rule _ r h.0.apid_no_comma refl h.0.ctid_no_comma)
split-print_filter r (s ∷ rules) h =
    split-append b',' (print_rule r) (print_filter (s ∷ rules))
      (All-print_rule _ r h.0.apid_no_comma refl h.0.ctid_no_comma)
    ∙ ap (λ ps. print_rule r ∷ ps) (split-print_filter s rules h.1)

print_filter-Clean : (rules : List DltFilterRule) → All IsRule rules → Clean (print_filter rules)
unfolding print_filter
print_filter-Clean [] h = tt
print_filter-Clean (r ∷ []) h = All-print_rule _ r h.0.apid_clean refl h.0.ctid_clean
print_filter-Clean (r ∷ s ∷ rules) h =
    All-append _ (print_rule r) _ (All-print_rule _ r h.0.apid_clean refl h.0.ctid_clean)
      (refl, print_filter-Clean (s ∷ rules) h.1)

-- A filter whose rules have no white space and no comma, no colon in the APID, an APID of one to four
-- bytes and a CTID of at most four, is parsed back from its printed form.
pub parse_dlt_filter-print_filter :
    (rules : List DltFilterRule)
    → All IsRule rules
    → parse_dlt_filter (print_filter rules) ≡ inr rules
unfolding parse_dlt_filter print_filter
parse_dlt_filter-print_filter [] h = rw (trim_space-Clean [] tt) refl
parse_dlt_filter-print_filter (r ∷ rules) h =
    rw
      (
        trim_space-Clean (print_filter (r ∷ rules)) (print_filter-Clean (r ∷ rules) h),
        split-print_filter r rules h,
      )
      (ground (
        arith,
        split-print_filter r rules h,
        list_equals_iff (print_filter (r ∷ rules)) [],
        parse_parts-print_rule (r ∷ rules) h,
      ))
