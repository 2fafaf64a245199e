-- ===== src/Dlt/Suffix.antt =====
-- The JSON text that is found in a DLT message ends it (internal/parser/dlt.go).
use eebus_tracer.Prelude.{
  ℕ, ◌≡◌, refl, sym, ap, ◌∙◌, Bool, List, [], ◌∷◌, ◌++◌, append_assoc, Option, none, some,
  if◌then◌else◌, bool_elim, ◌==◌, nat_eq, if_both, list_eq, option_elim, contains,
}
use eebus_tracer.Dlt.Patterns.{
  after, skip_all, skip_some, last_char, blanks_then_group, send_group, receive_group, from_first,
  is_blank, ◌>>=◌,
}

-- `r` is the end of `s`.
abbrev pub Ends : List ℕ → List ℕ → Type 0
Ends s r = (front : List ℕ) × (s ≡ front ++ r)

Ends-refl : (s : List ℕ) → Ends s s
Ends-refl s = ([], refl)

Ends-cons : (c : ℕ) (s r : List ℕ) → Ends s r → Ends (c ∷ s) r
Ends-cons c s r (front, e) = (c ∷ front, ap (◌∷◌ c) e)

Ends-trans : (s r q : List ℕ) → Ends s r → Ends r q → Ends s q
Ends-trans s r q (a, e) (b, f) = (a ++ b, e ∙ ap (a ++◌) f ∙ sym (append_assoc a b q))

-- What a matcher leaves, if it matches, is the end of `s`.
abbrev pub LeavesEnd : List ℕ → Option (List ℕ) → Type 0
LeavesEnd s none = Unit
LeavesEnd s (some r) = Ends s r

LeavesEnd-trans : (s r : List ℕ) (o : Option (List ℕ)) → Ends s r → LeavesEnd r o → LeavesEnd s o
LeavesEnd-trans s r none h k = tt
LeavesEnd-trans s r (some q) h k = Ends-trans s r q h k

LeavesEnd-cons : (c : ℕ) (s : List ℕ) (o : Option (List ℕ)) → LeavesEnd s o → LeavesEnd (c ∷ s) o
LeavesEnd-cons c s none h = tt
LeavesEnd-cons c s (some r) h = Ends-cons c s r h

-- One matcher behind another.
LeavesEnd->>= :
    (s : List ℕ) (o : Option (List ℕ)) (f : List ℕ → Option (List ℕ))
    → LeavesEnd s o
    → ((r : List ℕ) → LeavesEnd r (f r))
    → LeavesEnd s (o >>= f)
LeavesEnd->>= s none f h k = tt
LeavesEnd->>= s (some r) f h k = LeavesEnd-trans s r (f r) h (k r)

after-LeavesEnd : (p s : List ℕ) → LeavesEnd s (after p s)
unfolding after
after-LeavesEnd [] s = Ends-refl s
after-LeavesEnd (p ∷ ps) [] = tt
after-LeavesEnd (p ∷ ps) (c ∷ s) =
    bool_elim (LeavesEnd (c ∷ s)) (p == c) _ _
      (λ same. LeavesEnd-cons c s (after ps s) (after-LeavesEnd ps s)) (λ other. tt)

skip_all-Ends : (p : ℕ → Bool) (s : List ℕ) → Ends s (skip_all p s)
unfolding skip_all
skip_all-Ends p [] = Ends-refl []
skip_all-Ends p (c ∷ s) =
    bool_elim (Ends (c ∷ s)) (p c) _ _ (λ fits. Ends-cons c s _ (skip_all-Ends p s))
      (λ other. Ends-refl (c ∷ s))

skip_some-LeavesEnd : (p : ℕ → Bool) (s : List ℕ) → LeavesEnd s (skip_some p s)
unfolding skip_some
skip_some-LeavesEnd p [] = tt
skip_some-LeavesEnd p (c ∷ s) =
    bool_elim (LeavesEnd (c ∷ s)) (p c) _ _ (λ fits. Ends-cons c s _ (skip_all-Ends p s))
      (λ other. tt)

last_char-LeavesEnd : (s : List ℕ) → LeavesEnd s (last_char s)
unfolding last_char
last_char-LeavesEnd [] = tt
last_char-LeavesEnd (c ∷ []) =
    if_both (LeavesEnd (c ∷ [])) (c == 10) none (some (c ∷ [])) tt (Ends-refl (c ∷ []))
last_char-LeavesEnd (c ∷ d ∷ s) =
    LeavesEnd-cons c (d ∷ s) (last_char (d ∷ s)) (last_char-LeavesEnd (d ∷ s))

group-LeavesEnd :
    (s r : List ℕ)
    → Ends s r
    → LeavesEnd s (elim r [
      | [] ↦ last_char s
      | d ∷ rest ↦ if contains (d ∷ rest) 10 then none else some (d ∷ rest)
    ])
group-LeavesEnd s [] h = last_char-LeavesEnd s
group-LeavesEnd s (d ∷ rest) h = if_both (LeavesEnd s) (contains (d ∷ rest) 10) none _ tt h

blanks_then_group-LeavesEnd : (s : List ℕ) → LeavesEnd s (blanks_then_group s)
unfolding blanks_then_group
blanks_then_group-LeavesEnd [] = tt
blanks_then_group-LeavesEnd (c ∷ s) =
    bool_elim (LeavesEnd (c ∷ s)) (is_blank c) _ _
      (λ blank.
        LeavesEnd-cons c s _ (group-LeavesEnd s (skip_all is_blank s) (skip_all-Ends is_blank s)))
      (λ other. tt)

pub from_first-LeavesEnd : (p s : List ℕ) → LeavesEnd s (from_first p s)
unfolding from_first
from_first-LeavesEnd p [] =
    option_elim (LeavesEnd []) (after p []) _ _ (λ e. tt) (λ r e. Ends-refl [])
from_first-LeavesEnd p (c ∷ s) =
    option_elim (LeavesEnd (c ∷ s)) (after p (c ∷ s)) _ _
      (λ e. LeavesEnd-cons c s (from_first p s) (from_first-LeavesEnd p s))
      (λ r e. Ends-refl (c ∷ s))

ruleset matchers =
    (LeavesEnd->>=, after-LeavesEnd, skip_some-LeavesEnd, blanks_then_group-LeavesEnd)

pub send_group-LeavesEnd : (s : List ℕ) → LeavesEnd s (send_group s)
unfolding send_group
send_group-LeavesEnd s = search matchers depth 24

pub receive_group-LeavesEnd : (s : List ℕ) → LeavesEnd s (receive_group s)
unfolding receive_group
receive_group-LeavesEnd s = search matchers depth 24
