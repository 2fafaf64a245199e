-- ===== src/Lpc/Verdicts.antt =====
-- What a verdict of `checkHeartbeatFor` (internal/analysis/lpc_conformance.go) says of the heartbeats.
use mathlib.Core.Path.{subst}
use eebus_tracer.Prelude.{
  ℕ, suc, ◌≡◌, ◌≢◌, refl, sym, ap, ◌∙◌, true, false, List, [], ◌∷◌, length, map, filter, some,
  get_elem?, String, if_elim, All, All-map, string_eq, pair_eq, Bool-cases, inl, inr, ltb, nat_eq,
  arith,
}
use eebus_tracer.Prelude.Int.{pos}
use eebus_tracer.Model.{Message}
use eebus_tracer.Heartbeat.{
  PairKey, Point, HeartbeatGap, gaps_between, gaps_of, collect_heartbeat_gaps_by_pair,
}
use eebus_tracer.Heartbeat.Gaps.{heartbeats_of, collect_heartbeat_gaps_by_pair-GapsByPair}
use eebus_tracer.Lpc.{
  Devices, has, Intervals, is_late, Format, gap_evidence, scan_pairs, pass, fail, LpcEvidence,
  LpcCheckResult, conclude, check_heartbeat_for, total_heartbeats,
}
use eebus_tracer.Lpc.Scan.{
  role_gaps, scan_pairs-eq, scan_gaps-violations, role_gaps-All, All-role_gaps,
}

-- The gap lies between consecutive heartbeats of the pair.
abbrev pub IsGapOf : List Message → PairKey → HeartbeatGap → Type 0
IsGapOf messages pair g =
    (i : ℕ) × (get_elem? (gaps_between (heartbeats_of pair messages)) i ≡ some g)

-- An evidence that names a gap of more than 60 s between consecutive heartbeats of a device of the role.
abbrev pub IsViolation : Format → Devices → List Message → LpcEvidence → Type 0
IsViolation fmt role messages e =
    (pair : PairKey) × (g : HeartbeatGap) × (has pair.0 role ≡ true)
    × IsGapOf messages pair g
    × (is_late g ≡ true)
    × (e ≡ gap_evidence fmt g)

All-get_elem? : (gs : List HeartbeatGap) → All (λ g. (i : ℕ) × (get_elem? gs i ≡ some g)) gs
All-get_elem? [] = tt
All-get_elem? (g ∷ gs) = (
  (0, refl),
  All-map (λ h. (i : ℕ) × (get_elem? gs i ≡ some h)) _ (λ h x. (suc x.0, x.1)) gs
      (All-get_elem? gs),
)

All-filter :
    (P : HeartbeatGap → Type 0) (gs : List HeartbeatGap)
    → All P gs
    → All (λ g. P g × (is_late g ≡ true)) (filter is_late gs)
All-filter P [] h = tt
All-filter P (g ∷ gs) h =
    if_elim (All (λ g. P g × (is_late g ≡ true))) (is_late g) _ _
      (λ late. ((h.0, late), All-filter P gs h.1)) (λ early. All-filter P gs h.1)

filter-nil : (gs : List HeartbeatGap) → filter is_late gs ≡ [] → All (λ g. is_late g ≡ false) gs
filter-nil [] h = tt
filter-nil (g ∷ gs) h = (ground (arith, h), filter-nil gs (ground (arith, h)))

All-over-map :
    {A B : Type 0} (P : B → Type 0) (f : A → B) (xs : List A)
    → All (λ x. P (f x)) xs
    → All P (map f xs)
All-over-map P f [] h = tt
All-over-map P f (x ∷ xs) h = (h.0, All-over-map P f xs h.1)

map-nil : {A B : Type 0} (f : A → B) (xs : List A) → map f xs ≡ [] → xs ≡ []
map-nil f [] h = refl
map-nil f (x ∷ xs) h = absurd (ground (arith, h))

gaps_between-short : (pts : List Point) → ltb (length pts) 2 ≡ true → gaps_between pts ≡ []
gaps_between-short [] h = refl
gaps_between-short (p ∷ []) h = refl
gaps_between-short (p ∷ q ∷ pts) h = absurd (ground (arith, h))

-- What is collected for a pair, kept or not.
gaps_of_lem :
    (messages : List Message) (pair : PairKey)
    → gaps_of pair (collect_heartbeat_gaps_by_pair messages).1
      ≡ gaps_between (heartbeats_of pair messages)
gaps_of_lem messages pair = ground (
  arith,
  (collect_heartbeat_gaps_by_pair-GapsByPair messages).gaps_of_pair pair,
  gaps_between-short (heartbeats_of pair messages),
)

module _ (fmt : Format) where
  conclude-fail :
      (blank : LpcCheckResult) (label : String) (total : ℕ) (s : Intervals)
      → (conclude fmt blank label total s).verdict ≡ fail
      → ((conclude fmt blank label total s).evidence ≡ s.violations) × (s.violations ≢ [])
  unfolding conclude
  conclude-fail blank label total s h = ground arith

  conclude-pass :
      (blank : LpcCheckResult) (label : String) (total : ℕ) (s : Intervals)
      → (conclude fmt blank label total s).verdict ≡ pass
      → (total ≢ 0) × (s.gap_count ≢ 0) × (s.violations ≡ [])
  unfolding conclude
  conclude-pass blank label total s h = ground arith

  -- What the loop leaves of the messages' gaps.
  abbrev intervals_of : Devices → List Message → Intervals
  intervals_of role messages =
      scan_pairs fmt role (collect_heartbeat_gaps_by_pair messages).0
        (collect_heartbeat_gaps_by_pair messages).1
        (record { violations = []; max_gap = pos 0; gap_count = 0 })

  abbrev gaps_in_role : Devices → List Message → List HeartbeatGap
  gaps_in_role role messages =
      role_gaps role (collect_heartbeat_gaps_by_pair messages).0
        (collect_heartbeat_gaps_by_pair messages).1

  violations_lem :
      (role : Devices) (messages : List Message)
      → (intervals_of role messages).violations
        ≡ map (gap_evidence fmt) (filter is_late (gaps_in_role role messages))
  violations_lem role messages =
      ap (λ s. s.violations) (scan_pairs-eq fmt role _ _ _)
      ∙ scan_gaps-violations fmt (gaps_in_role role messages) _

  gaps_of-IsGapOf :
      (messages : List Message) (pair : PairKey)
      → All (IsGapOf messages pair) (gaps_of pair (collect_heartbeat_gaps_by_pair messages).1)
  gaps_of-IsGapOf messages pair =
      subst (All (IsGapOf messages pair)) (sym (gaps_of_lem messages pair))
        (All-get_elem? (gaps_between (heartbeats_of pair messages)))

  gaps_in_role-IsViolation :
      (role : Devices) (messages : List Message)
      → All
          (IsViolation fmt role messages)
          (map (gap_evidence fmt) (filter is_late (gaps_in_role role messages)))
  gaps_in_role-IsViolation role messages =
      All-over-map (IsViolation fmt role messages) (gap_evidence fmt) _ (
        All-map _ _ (λ g x. (x.0.0, g, x.0.1.0, x.0.1.1, x.1, refl))
          (filter is_late (gaps_in_role role messages))
          (All-filter _ (gaps_in_role role messages) (
            role_gaps-All (λ pair g. (has pair.0 role ≡ true) × IsGapOf messages pair g) role _ _
              (λ pair inside.
                All-map (IsGapOf messages pair) _ (λ g x. (inside, x)) _
                  (gaps_of-IsGapOf messages pair)))))

  -- If the verdict on a role is fail, there is evidence, and each piece of it names two consecutive
  -- heartbeats that one device of the role sent to one other, more than 60 seconds apart.
  pub check_heartbeat_for-fail :
      (messages : List Message) (role : Devices) (label : String) (blank : LpcCheckResult)
      → (check_heartbeat_for fmt messages role label blank).verdict ≡ fail
      → ((check_heartbeat_for fmt messages role label blank).evidence ≢ [])
        × All
            (IsViolation fmt role messages)
            (check_heartbeat_for fmt messages role label blank).evidence
  unfolding check_heartbeat_for
  check_heartbeat_for-fail messages [] label blank h = absurd (ground (arith, h))
  check_heartbeat_for-fail messages (d ∷ ds) label blank h =
      let c =
        conclude-fail blank label (total_heartbeats (d ∷ ds) messages)
          (intervals_of (d ∷ ds) messages) h in
      (
        λ e. c.1 (sym c.0 ∙ e),
        subst (All (IsViolation fmt (d ∷ ds) messages))
            (sym (c.0 ∙ violations_lem (d ∷ ds) messages))
            (gaps_in_role-IsViolation (d ∷ ds) messages),
      )

  -- If the verdict on a role is pass, no two consecutive heartbeats that a device of the role sent to
  -- another are more than 60 seconds apart.
  pub check_heartbeat_for-pass :
      (messages : List Message) (role : Devices) (label : String) (blank : LpcCheckResult)
      (pair : PairKey)
      → (check_heartbeat_for fmt messages role label blank).verdict ≡ pass
      → has pair.0 role ≡ true
      → All (λ g. is_late g ≡ false) (gaps_between (heartbeats_of pair messages))
  unfolding check_heartbeat_for
  check_heartbeat_for-pass messages [] label blank pair h k = absurd (ground (arith, h))
  check_heartbeat_for-pass messages (d ∷ ds) label blank pair h k =
      let c =
        conclude-pass blank label (total_heartbeats (d ∷ ds) messages)
          (intervals_of (d ∷ ds) messages) h in
      let on_time =
        filter-nil (gaps_in_role (d ∷ ds) messages)
          (map-nil (gap_evidence fmt) _ (sym (violations_lem (d ∷ ds) messages) ∙ c.2)) in
      let collected = collect_heartbeat_gaps_by_pair-GapsByPair messages in
      elim (Bool-cases (ltb (length (heartbeats_of pair messages)) 2)) [
        | inl few ↦
            subst (All (λ g. is_late g ≡ false))
              (sym (gaps_between-short (heartbeats_of pair messages) few)) tt
        | inr more ↦ subst (All (λ g. is_late g ≡ false)) (gaps_of_lem messages pair) (
            All-role_gaps _ (d ∷ ds) _ _ pair k
              (ground (arith, more, collected.order_complete pair)) on_time)
      ]
