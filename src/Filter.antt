-- ===== src/Filter.antt =====
-- The filter of a DLT source (internal/capture/source_dlt.go: `DLTFilter`). Texts are lists of bytes;
-- white space is that of ASCII.
pub mod Words
pub mod RoundTrip
pub mod Bounds
use eebus_tracer.Prelude.{
  ℕ, zero, suc, Bool, true, false, not, ◌&&◌, ◌||◌, List, [], ◌∷◌, ◌++◌, Option, none, some, ◌⊎◌,
  inl, inr, length, any, ◌==◌, nat_eq, list_eq, if◌then◌else◌, ltb,
}

-- `dltFilterRule`
pub record DltFilterRule : Type 0 where
  pub apid : List ℕ
  pub ctid : List ℕ

-- The errors of `ParseDLTFilter`, with the entry.
pub data FilterError : Type 0 where
  empty_apid : List ℕ → FilterError
  too_long : List ℕ → FilterError

-- The loop of `Accept`.
unfoldable pub any_rule : List ℕ → List ℕ → List DltFilterRule → Bool
any_rule apid ctid [] = false
any_rule apid ctid (r ∷ rules) =
    let rest = any_rule apid ctid rules in
    if not (r.apid == apid) then rest else if r.ctid == [] || r.ctid == ctid then true else rest

-- `Accept`
unfoldable pub accept : List DltFilterRule → List ℕ → List ℕ → Bool
unfolding any_rule
accept [] apid ctid = true
accept (r ∷ rules) apid ctid = any_rule apid ctid (r ∷ rules)

-- One entry of `String`.
abbrev pub print_rule : DltFilterRule → List ℕ
print_rule r = elim r.ctid [ [] ↦ r.apid | c ∷ ctid ↦ r.apid ++ b':' ∷ c ∷ ctid ]

-- `String`
unfoldable pub print_filter : List DltFilterRule → List ℕ
print_filter [] = []
print_filter (r ∷ []) = print_rule r
print_filter (r ∷ s ∷ rules) = print_rule r ++ b',' ∷ print_filter (s ∷ rules)

abbrev pub is_space : ℕ → Bool
is_space c = c == 32 || not (ltb c 9) && ltb c 14

abbrev pub trim_left : List ℕ → List ℕ
trim_left [] = []
trim_left (c ∷ s) = let rest = trim_left s in if is_space c then rest else c ∷ s

abbrev pub trim_right : List ℕ → List ℕ
trim_right [] = []
trim_right (c ∷ s) = elim (trim_right s) [
  | [] ↦ if is_space c then [] else c ∷ []
  | d ∷ t ↦ c ∷ d ∷ t
]

-- `strings.TrimSpace`
unfoldable pub trim_space : List ℕ → List ℕ
trim_space s = trim_right (trim_left s)

-- A byte at the head of the first part.
abbrev pub push : ℕ → List (List ℕ) → List (List ℕ)
push c [] = (c ∷ []) ∷ []
push c (p ∷ parts) = (c ∷ p) ∷ parts

-- `strings.Split` at one byte
unfoldable pub split : ℕ → List ℕ → List (List ℕ)
split sep [] = [] ∷ []
split sep (c ∷ s) = let rest = split sep s in if c == sep then [] ∷ rest else push c rest

-- The text in front of the first such byte and behind it, by `strings.IndexByte`.
unfoldable pub cut : ℕ → List ℕ → Option (List ℕ × List ℕ)
cut sep [] = none
cut sep (c ∷ s) =
    let rest : Option (List ℕ × List ℕ) = elim (cut sep s) [
      | none ↦ none
      | some (before, after) ↦ some (c ∷ before, after)
    ] in
    if c == sep then some ([], s) else rest

-- The rule of an entry, with no check.
unfoldable pub raw_rule : List ℕ → DltFilterRule
unfolding trim_space cut
raw_rule part = elim (cut b':' part) [
  | none ↦ record { apid = part; ctid = [] }
  | some (before, after) ↦ record { apid = trim_space before; ctid = trim_space after }
]

unfoldable pub checked_rule : List ℕ → DltFilterRule → FilterError ⊎ DltFilterRule
checked_rule part r =
    if r.apid == []
    then inl (empty_apid part)
    else if ltb 4 (length r.apid) || ltb 4 (length r.ctid)
    then inl (too_long part)
    else inr r

-- `f.rules = append(f.rules, r)`, or the first error.
abbrev pub add_rule :
    FilterError ⊎ DltFilterRule
    → FilterError ⊎ List DltFilterRule
    → FilterError ⊎ List DltFilterRule
add_rule (inl e) rest = inl e
add_rule (inr r) (inl e) = inl e
add_rule (inr r) (inr rules) = inr (r ∷ rules)

-- The loop of `ParseDLTFilter`.
unfoldable pub parse_parts : List (List ℕ) → FilterError ⊎ List DltFilterRule
parse_parts [] = inr []
parse_parts (p ∷ parts) =
    let part = trim_space p in
    let rest = parse_parts parts in
    if part == [] then rest else add_rule (checked_rule part (raw_rule part)) rest

-- `ParseDLTFilter`
unfoldable pub parse_dlt_filter : List ℕ → FilterError ⊎ List DltFilterRule
parse_dlt_filter s = let t = trim_space s in if t == [] then inr [] else parse_parts (split b',' t)
