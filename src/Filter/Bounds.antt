-- ===== src/Filter/Bounds.antt =====
-- What a parsed filter is (internal/capture/source_dlt.go: `ParseDLTFilter`).
use eebus_tracer.Prelude.{
  ℕ, ◌≤◌, ◌<◌, ◌≡◌, false, List, [], ◌∷◌, ◌⊎◌, inl, inr, length, All, if_elim, ltb, ◌==◌, nat_eq,
  list_eq, ◌||◌, arith,
}
use eebus_tracer.Filter.{
  DltFilterRule, FilterError, trim_space, split, raw_rule, checked_rule, add_rule, parse_parts,
  parse_dlt_filter,
}

-- The sizes of the rules that a frame can match.
abbrev pub IsSized : DltFilterRule → Type 0
IsSized r = (0 < length r.apid) × (length r.apid ≤ 4) × (length r.ctid ≤ 4)

-- An error, or a result that satisfies `P`.
abbrev pub Parsed : {A : Type 0} → (A → Type 0) → FilterError ⊎ A → Type 0
Parsed P (inl e) = Unit
Parsed P (inr a) = P a

length-named : (s : List ℕ) → (s == []) ≡ false → 0 < length s
length-named [] h = absurd (ground (arith, h))
length-named (c ∷ s) h = omega arith

checked_rule-IsSized : (part : List ℕ) (r : DltFilterRule) → Parsed IsSized (checked_rule part r)
unfolding checked_rule
checked_rule-IsSized part r =
    if_elim (Parsed IsSized) (r.apid == []) _ _ (λ empty. tt)
      (λ named.
        if_elim (Parsed IsSized) (ltb 4 (length r.apid) || ltb 4 (length r.ctid)) _ _ (λ long. tt)
          (λ fits. (length-named r.apid named, ground (arith, fits), ground (arith, fits))))

add_rule-IsSized :
    (first : FilterError ⊎ DltFilterRule) (rest : FilterError ⊎ List DltFilterRule)
    → Parsed IsSized first
    → Parsed (All IsSized) rest
    → Parsed (All IsSized) (add_rule first rest)
add_rule-IsSized (inl e) rest h k = tt
add_rule-IsSized (inr r) (inl e) h k = tt
add_rule-IsSized (inr r) (inr rules) h k = (h, k)

parse_parts-IsSized : (parts : List (List ℕ)) → Parsed (All IsSized) (parse_parts parts)
unfolding parse_parts
parse_parts-IsSized [] = tt
parse_parts-IsSized (p ∷ parts) =
    if_elim (Parsed (All IsSized)) (trim_space p == []) _ _ (λ blank. parse_parts-IsSized parts)
      (λ named.
        add_rule-IsSized _ _ (checked_rule-IsSized (trim_space p) (raw_rule (trim_space p)))
          (parse_parts-IsSized parts))

-- Whatever the text, if it is parsed to a filter, each rule has an APID of one to four bytes and a CTID
-- of at most four, the sizes of the fields of a frame.
pub parse_dlt_filter-IsSized : (s : List ℕ) → Parsed (All IsSized) (parse_dlt_filter s)
unfolding parse_dlt_filter
parse_dlt_filter-IsSized s =
    if_elim (Parsed (All IsSized)) (trim_space s == []) _ _ (λ blank. tt)
      (λ named. parse_parts-IsSized (split b',' (trim_space s)))
