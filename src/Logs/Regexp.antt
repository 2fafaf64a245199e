-- ===== src/Logs/Regexp.antt =====
-- Regular expressions as package regexp runs them: of the matches that begin at the start of the text
-- the one that a backtracking search finds first. Texts are bytes; a class stands for one byte.
use eebus_tracer.Prelude.{
  ℕ, ◌-◌, Bool, true, false, List, [], ◌∷◌, Option, none, some, ◌==◌, nat_eq, length, take,
  if◌then◌else◌,
}

pub data Regexp : Type 0 where
  empty : Regexp
  class : (ℕ → Bool) → Regexp
  plus : (ℕ → Bool) → Regexp  -- one or more of a class, as many as possible
  seq alt : Regexp → Regexp → Regexp  -- one behind the other; the first if it leads to a match
  group : ℕ → Regexp → Regexp

-- What the groups have matched; the last one counts.
abbrev pub Groups : Type 0
Groups = List (ℕ × List ℕ)

-- The text of a group, empty if it took no part in the match.
unfoldable pub group_text : ℕ → Groups → List ℕ
group_text i [] = []
group_text i ((j, t) ∷ groups) = if i == j then t else group_text i groups

-- Longer runs are tried first.
unfoldable pub run_plus :
    (ℕ → Bool) → (List ℕ → Groups → Option Groups) → List ℕ → Groups → Option Groups
run_plus p next [] g = none
run_plus p next (c ∷ s) g = elim (p c) [
  | false ↦ none
  | true ↦ elim (run_plus p next s g) [ some r ↦ some r | none ↦ next s g ]
]

-- The search, with what has to match behind.
unfoldable pub run : Regexp → (List ℕ → Groups → Option Groups) → List ℕ → Groups → Option Groups
unfolding run_plus
run empty next s g = next s g
run (class p) next [] g = none
run (class p) next (c ∷ s) g = elim (p c) [ true ↦ next s g | false ↦ none ]
run (plus p) next s g = run_plus p next s g
run (seq a b) next s g = run a (run b next) s g
run (alt a b) next s g = elim (run a next s g) [ some r ↦ some r | none ↦ run b next s g ]
run (group i a) next s g =
    run a (λ rest h. next rest ((i, take (length s - length rest) s) ∷ h)) s g

-- `^…$`
abbrev at_end : List ℕ → Groups → Option Groups
at_end [] g = some g
at_end (c ∷ s) g = none

-- `FindStringSubmatch` of an expression between `^` and `$`.
unfoldable pub find_submatch : Regexp → List ℕ → Option Groups
unfolding run
find_submatch r s = run r at_end s []

-- `MatchString` of an expression behind `^`.
unfoldable pub match_string : Regexp → List ℕ → Bool
unfolding run
match_string r s = elim (run r (λ rest g. some g) s []) [ some g ↦ true | none ↦ false ]
