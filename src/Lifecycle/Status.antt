-- ===== src/Lifecycle/Status.antt =====
-- The overall status of a checklist (internal/analysis/lifecycle.go: `computeOverallStatus`).
use eebus_tracer.Prelude.{
  ℕ, suc, ◌≤◌, ◌≡◌, refl, sym, ◌∙◌, ◌⊎◌, inl, inr, List, [], ◌∷◌, some, get_elem?, All, Bool-cases,
  arith,
}
use eebus_tracer.Lifecycle.{
  StepStatus, pass, LifecycleStep, status_priority, is_na, worse, worst_from,
  compute_overall_status,
}

-- A step of the list has this status.
abbrev pub IsAttained : List LifecycleStep → StepStatus → Type 0
IsAttained steps w = (i : ℕ) × (s : LifecycleStep) × (get_elem? steps i ≡ some s) × (s.status ≡ w)

worse-bounds :
    (w s : StepStatus)
    → (status_priority s ≤ status_priority (worse w s))
      × (status_priority w ≤ status_priority (worse w s))
      × ((worse w s ≡ w) ⊎ (worse w s ≡ s))
worse-bounds w s = elim (Bool-cases (is_na s)) [
  | inl skipped ↦ ground (arith, skipped)
  | inr counted ↦ ground (arith, counted)
]

IsAttained-cons :
    (w : StepStatus) (s : LifecycleStep) (steps : List LifecycleStep)
    → (worse w s.status ≡ w) ⊎ (worse w s.status ≡ s.status)
    → (worst_from steps (worse w s.status) ≡ worse w s.status)
      ⊎ IsAttained steps (worst_from steps (worse w s.status))
    → (worst_from steps (worse w s.status) ≡ w)
      ⊎ IsAttained (s ∷ steps) (worst_from steps (worse w s.status))
IsAttained-cons w s steps (inl stays) (inl last) = inl (last ∙ stays)
IsAttained-cons w s steps (inr rises) (inl last) = inr (0, s, refl, sym (last ∙ rises))
IsAttained-cons w s steps b (inr found) = inr (suc found.0, found.1, found.2, found.3)

worst_from_lem :
    (steps : List LifecycleStep) (w : StepStatus)
    → (All (λ s. status_priority s.status ≤ status_priority (worst_from steps w)) steps)
      × (status_priority w ≤ status_priority (worst_from steps w))
      × ((worst_from steps w ≡ w) ⊎ IsAttained steps (worst_from steps w))
worst_from_lem [] w = (tt, ground arith, inl refl)
worst_from_lem (s ∷ steps) w =
    let b = worse-bounds w s.status in
    let r = worst_from_lem steps (worse w s.status) in
    ((ground (arith, b.0, r.1), r.0), ground (arith, b.1, r.1), IsAttained-cons w s steps b.2 r.2)

-- The overall status is no better than that of any step, it is pass or the status of some step.
pub compute_overall_status_lem :
    (steps : List LifecycleStep)
    → (All (λ s. status_priority s.status ≤ status_priority (compute_overall_status steps)) steps)
      × ((compute_overall_status steps ≡ pass) ⊎ IsAttained steps (compute_overall_status steps))
unfolding compute_overall_status
compute_overall_status_lem steps = let r = worst_from_lem steps pass in (r.0, r.2)
