-- ===== src/Filter/Words.antt =====
-- Trimming, splitting and cutting of texts (internal/capture/source_dlt.go, with Go's strings).
use eebus_tracer.Prelude.{
  ℕ, ◌≡◌, refl, ap, ◌∙◌, false, List, [], ◌∷◌, ◌++◌, none, some, All, ◌==◌, nat_eq, arith,
}
use eebus_tracer.Filter.{is_space, trim_left, trim_right, trim_space, split, cut}

-- No byte of it is white space.
abbrev pub Clean : List ℕ → Type 0
Clean s = All (λ c. is_space c ≡ false) s

abbrev pub Without : ℕ → List ℕ → Type 0
Without sep s = All (λ c. (c == sep) ≡ false) s

trim_right-Clean : (s : List ℕ) → Clean s → trim_right s ≡ s
trim_right-Clean [] h = refl
trim_right-Clean (c ∷ []) h = ground (arith, h.0)
trim_right-Clean (c ∷ d ∷ s) h = ground (arith, trim_right-Clean (d ∷ s) h.1)

trim_left-Clean : (s : List ℕ) → Clean s → trim_left s ≡ s
trim_left-Clean [] h = refl
trim_left-Clean (c ∷ s) h = ground (arith, h.0)

pub trim_space-Clean : (s : List ℕ) → Clean s → trim_space s ≡ s
unfolding trim_space
trim_space-Clean s h = ap trim_right (trim_left-Clean s h) ∙ trim_right-Clean s h

pub split-append :
    (sep : ℕ) (p s : List ℕ) → Without sep p → split sep (p ++ sep ∷ s) ≡ p ∷ split sep s
unfolding split
split-append sep [] s h = ground arith
split-append sep (c ∷ p) s h = ground (arith, h.0, split-append sep p s h.1)

pub split_whole : (sep : ℕ) (p : List ℕ) → Without sep p → split sep p ≡ p ∷ []
unfolding split
split_whole sep [] h = refl
split_whole sep (c ∷ p) h = ground (arith, h.0, split_whole sep p h.1)

pub cut-append : (sep : ℕ) (p s : List ℕ) → Without sep p → cut sep (p ++ sep ∷ s) ≡ some (p, s)
unfolding cut
cut-append sep [] s h = ground arith
cut-append sep (c ∷ p) s h = ground (arith, h.0, cut-append sep p s h.1)

pub cut-none : (sep : ℕ) (p : List ℕ) → Without sep p → cut sep p ≡ none
unfolding cut
cut-none sep [] h = refl
cut-none sep (c ∷ p) h = ground (arith, h.0, cut-none sep p h.1)
