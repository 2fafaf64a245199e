-- ===== src/Import/Lines.antt =====
-- The lines of a text as bufio.Scanner gives them with the buffer of the importers.
use eebus_tracer.Prelude.{
  ℕ, ◌*◌, List, [], ◌∷◌, Option, none, some, ◌==◌, nat_eq, list_eq, if◌then◌else◌, leb, any, map,
  length,
}

-- The pieces between the line feeds; a last one that is empty is none.
unfoldable pub pieces : List ℕ → List (List ℕ)
pieces [] = []
pieces (c ∷ s) =
    if c == 10
    then [] ∷ pieces s
    else elim (pieces s) [ [] ↦ (c ∷ []) ∷ [] | line ∷ lines ↦ (c ∷ line) ∷ lines ]

-- A carriage return in front of the line feed does not belong to the line.
unfoldable pub drop_return : List ℕ → List ℕ
drop_return [] = []
drop_return (c ∷ []) = if c == 13 then [] else c ∷ []
drop_return (c ∷ d ∷ s) = c ∷ drop_return (d ∷ s)

-- The size of the scanner's buffer: a line that fills it is an error.
abbrev pub max_line : ℕ
max_line = 10 * 1024 * 1024

-- The lines; `none` is the scanner's error.
unfoldable pub scan_lines : List ℕ → Option (List (List ℕ))
unfolding pieces drop_return
scan_lines text =
    let raw = pieces text in
    if any (λ line. leb max_line (length line)) raw then none else some (map drop_return raw)
