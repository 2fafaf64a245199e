-- ===== src/Lpc/Scan.antt =====
-- The loop over the gaps in `checkHeartbeatFor` (internal/analysis/lpc_conformance.go) as one pass over
-- the gaps of the role's pairs.
use mathlib.Core.Path.{subst}
use eebus_tracer.Prelude.{
  suc, ◌+◌, ◌≡◌, refl, sym, ap, ◌∙◌, Bool, true, false, not, List, [], ◌∷◌, ◌++◌, length, map,
  filter, append_assoc, append-nil, if◌then◌else◌, unless_elim, Bool-cases, inl, inr, String, All,
  All-append, All-split, All-map, contains, string_eq, pair_eq, ◌==◌, arith,
}
use eebus_tracer.Prelude.Int.{ltb_ℤ}
use eebus_tracer.Heartbeat.{PairKey, HeartbeatGap, gaps_of}
use eebus_tracer.Lpc.{Devices, has, Intervals, is_late, Format, gap_evidence, scan_gaps, scan_pairs}

-- The gaps of the pairs whose source is in the role.
abbrev pub role_gaps :
    Devices → List PairKey → List (PairKey × List HeartbeatGap) → List HeartbeatGap
role_gaps role [] gaps = []
role_gaps role (pair ∷ order) gaps =
    if not (has pair.0 role)
    then role_gaps role order gaps
    else gaps_of pair gaps ++ role_gaps role order gaps

module _ (fmt : Format) where
  scan_gaps-append :
      (xs ys : List HeartbeatGap) (s : Intervals)
      → scan_gaps fmt (xs ++ ys) s ≡ scan_gaps fmt ys (scan_gaps fmt xs s)
  unfolding scan_gaps
  scan_gaps-append [] ys s = refl
  scan_gaps-append (x ∷ xs) ys s = scan_gaps-append xs ys _

  pub scan_pairs-eq :
      (role : Devices) (order : List PairKey) (gaps : List (PairKey × List HeartbeatGap))
      (s : Intervals)
      → scan_pairs fmt role order gaps s ≡ scan_gaps fmt (role_gaps role order gaps) s
  unfolding scan_pairs
  scan_pairs-eq role [] gaps s = refl
  scan_pairs-eq role (pair ∷ order) gaps s = ground (
    arith,
    scan_pairs-eq role order gaps s,
    scan_pairs-eq role order gaps (scan_gaps fmt (gaps_of pair gaps) s),
    scan_gaps-append (gaps_of pair gaps) (role_gaps role order gaps) s,
  )

  pub scan_gaps-violations :
      (gs : List HeartbeatGap) (s : Intervals)
      → (scan_gaps fmt gs s).violations ≡ s.violations ++ map (gap_evidence fmt) (filter is_late gs)
  unfolding scan_gaps
  scan_gaps-violations [] s = sym (append-nil s.violations)
  scan_gaps-violations (g ∷ gs) s = ground (
    arith,
    scan_gaps-violations gs (record {
      violations = if is_late g then s.violations ++ gap_evidence fmt g ∷ [] else s.violations;
      max_gap = if ltb_ℤ s.max_gap g.duration then g.duration else s.max_gap;
      gap_count = suc s.gap_count;
    }),
    append_assoc s.violations (gap_evidence fmt g ∷ [])
        (map (gap_evidence fmt) (filter is_late gs)),
  )

  pub scan_gaps-gap_count :
      (gs : List HeartbeatGap) (s : Intervals)
      → (scan_gaps fmt gs s).gap_count ≡ s.gap_count + length gs
  unfolding scan_gaps
  scan_gaps-gap_count [] s = ground arith
  scan_gaps-gap_count (g ∷ gs) s = ground (
    arith,
    scan_gaps-gap_count gs (record {
      violations = if is_late g then s.violations ++ gap_evidence fmt g ∷ [] else s.violations;
      max_gap = if ltb_ℤ s.max_gap g.duration then g.duration else s.max_gap;
      gap_count = suc s.gap_count;
    }),
  )

-- What holds of every gap of every pair of the role holds of all of them.
pub role_gaps-All :
    (P : PairKey → HeartbeatGap → Type 0) (role : Devices) (order : List PairKey)
    (gaps : List (PairKey × List HeartbeatGap))
    → ((pair : PairKey) → has pair.0 role ≡ true → All (P pair) (gaps_of pair gaps))
    → All (λ g. (pair : PairKey) × P pair g) (role_gaps role order gaps)
role_gaps-All P role [] gaps h = tt
role_gaps-All P role (pair ∷ order) gaps h =
    unless_elim (All (λ g. (pair : PairKey) × P pair g)) (has pair.0 role) _ _
      (λ other. role_gaps-All P role order gaps h)
      (λ inside.
        All-append _ (gaps_of pair gaps) (role_gaps role order gaps)
          (All-map (P pair) _ (λ g x. (pair, x)) (gaps_of pair gaps) (h pair inside))
          (role_gaps-All P role order gaps h))

-- The branch that a test has chosen.
taken :
    {A : Type 0} (P : A → Type 0) (b : Bool) (x y : A) → b ≡ true → P (if not b then x else y) → P y
taken P true x y h p = p
taken P false x y h p = absurd (ground arith)

skipped :
    {A : Type 0} (P : A → Type 0) (b : Bool) (x y : A)
    → b ≡ false
    → P (if not b then x else y)
    → P x
skipped P true x y h p = absurd (ground arith)
skipped P false x y h p = p

-- A pair of the role that is in the order has its gaps among them.
pub All-role_gaps :
    (P : HeartbeatGap → Type 0) (role : Devices) (order : List PairKey)
    (gaps : List (PairKey × List HeartbeatGap)) (pair : PairKey)
    → has pair.0 role ≡ true
    → contains order pair ≡ true
    → All P (role_gaps role order gaps)
    → All P (gaps_of pair gaps)
All-role_gaps P role [] gaps pair h k x = absurd (ground (arith, k))
All-role_gaps P role (p ∷ order) gaps pair h k x = elim (Bool-cases (p == pair)) [
  | inl same ↦
      let at : p ≡ pair = ((pair_eq {A = String} {B = String}).equals_iff p pair).0 same in
      subst (λ q. All P (gaps_of q gaps)) at
        (All-split P (gaps_of p gaps) (role_gaps role order gaps)
          (taken (All P) (has p.0 role) _ _ (ap (λ q. has q.0 role) at ∙ h) x)).0
  | inr other ↦
      All-role_gaps P role order gaps pair h (ground (arith, k, other))
        (elim (Bool-cases (has p.0 role)) [
          | inl inside ↦
              (All-split P (gaps_of p gaps) (role_gaps role order gaps)
                (taken (All P) (has p.0 role) _ _ inside x)).1
          | inr outside ↦ skipped (All P) (has p.0 role) _ _ outside x
        ])
]
