-- ===== src/Dlt/Patterns.antt =====
-- The search for JSON in the text of a DLT message (internal/parser/dlt.go). A regular expression of
-- the source is a chain of matchers that give the rest of the text; the classes of characters that
-- follow one another in them do not overlap, so no match is taken back but at the end.
use eebus_tracer.Prelude.{
  ℕ, Bool, true, false, not, ◌&&◌, ◌||◌, List, [], ◌∷◌, Option, none, some, is_some, ◌==◌, nat_eq,
  if◌then◌else◌, ltb, contains, codes,
}

-- `\s`
abbrev pub is_blank : ℕ → Bool
is_blank c = c == 32 || c == 9 || c == 10 || c == 12 || c == 13

-- `\d`
abbrev pub is_digit : ℕ → Bool
is_digit c = not (ltb c 48) && ltb c 58

-- The text behind a prefix.
unfoldable pub after : List ℕ → List ℕ → Option (List ℕ)
after [] s = some s
after (p ∷ ps) [] = none
after (p ∷ ps) (c ∷ s) = elim (p == c) [ true ↦ after ps s | false ↦ none ]

-- The text behind all that a class matches from the start on.
unfoldable pub skip_all : (ℕ → Bool) → List ℕ → List ℕ
skip_all p [] = []
skip_all p (c ∷ s) = elim (p c) [ true ↦ skip_all p s | false ↦ c ∷ s ]

-- `\s+` or `\d+`: the same, if there is something.
unfoldable pub skip_some : (ℕ → Bool) → List ℕ → Option (List ℕ)
unfolding skip_all
skip_some p [] = none
skip_some p (c ∷ s) = elim (p c) [ true ↦ some (skip_all p s) | false ↦ none ]

-- The last character, which `.` has to match.
unfoldable pub last_char : List ℕ → Option (List ℕ)
last_char [] = none
last_char (c ∷ []) = if c == 10 then none else some (c ∷ [])
last_char (c ∷ d ∷ s) = last_char (d ∷ s)

-- `\s+(.+)$`. Where only blanks are left, the last of them is taken back for the group.
unfoldable pub blanks_then_group : List ℕ → Option (List ℕ)
unfolding skip_all last_char
blanks_then_group [] = none
blanks_then_group (c ∷ s) = elim (is_blank c) [
  | false ↦ none
  | true ↦ elim (skip_all is_blank s) [
    | [] ↦ last_char s
    | d ∷ rest ↦ if contains (d ∷ rest) 10 then none else some (d ∷ rest)
  ]
]

infixl 5 ◌>>=◌
abbrev pub ◌>>=◌ : Option (List ℕ) → (List ℕ → Option (List ℕ)) → Option (List ℕ)
none >>= f = none
some s >>= f = f s

-- The group of `porscheCEMSendPattern`.
unfoldable pub send_group : List ℕ → Option (List ℕ)
unfolding after skip_some blanks_then_group
send_group s = do
  a ← after (codes "[Session") s
  b ← skip_some is_blank a
  c ← skip_some is_digit b
  d ← after (codes "]") c
  e ← skip_some is_blank d
  f ← after (codes "Send:") e
  blanks_then_group f

-- The group of `porscheCEMRecvPattern`.
unfoldable pub receive_group : List ℕ → Option (List ℕ)
unfolding after skip_some blanks_then_group
receive_group s = do
  a ← after (codes "[ConnectionWorker") s
  b ← skip_some is_blank a
  c ← skip_some is_digit b
  d ← after (codes "]") c
  e ← skip_some is_blank d
  f ← after (codes "Received") e
  g ← skip_some is_blank f
  h ← skip_some is_digit g
  i ← skip_some is_blank h
  k ← after (codes "Data bytes during ConnectionDataExchange:") i
  blanks_then_group k

-- The text from the first place on where the prefix stands (`strings.Index`).
unfoldable pub from_first : List ℕ → List ℕ → Option (List ℕ)
unfolding after
from_first p [] = elim (after p []) [ none ↦ none | some r ↦ some [] ]
from_first p (c ∷ s) = elim (after p (c ∷ s)) [ none ↦ from_first p s | some r ↦ some (c ∷ s) ]

-- `strings.Contains`
unfoldable pub has_text : List ℕ → List ℕ → Bool
unfolding from_first
has_text s p = is_some (from_first p s)
