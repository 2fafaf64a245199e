-- ===== src/Lifecycle/Required.antt =====
-- When the steps on subscriptions and bindings (internal/analysis/lifecycle.go) pass and fail.
use eebus_tracer.Prelude.{
  ℕ, ◌≤◌, ◌≡◌, ◌↔◌, refl, sym, ◌∙◌, String, Bool, true, false, not, ◌&&◌, ◌||◌, List, [], ◌∷◌,
  length, any, All, All-map, ◌==◌, string_eq, nat_eq, if◌then◌else◌, arith,
}
use eebus_tracer.Prelude.Maps.{lookup, insert, lookup-insert}
use eebus_tracer.Lpc.{has}
use eebus_tracer.Lifecycle.{pass, fail, Format, found_of, conclude}
use eebus_tracer.Lifecycle.Steps.{Link, Active, collect_active, evaluate_links}

-- Some active entry of the device serves this feature type.
abbrev pub is_served : String → List Link → String → Bool
is_served device links q =
    any
      (λ l.
        l.server_device == device
        && l.active
        && not (l.server_feature_type == "")
        && l.server_feature_type == q)
      links

has-collect_active :
    (device q : String) (links : List Link) (a : Active)
    → has q (collect_active device links a).active_types
      ≡ has q a.active_types || is_served device links q
unfolding collect_active
has-collect_active device q [] a = ground arith
has-collect_active device q (l ∷ links) a = ground (
  arith,
  has-collect_active device q links a,
  has-collect_active device q links (record {
    active_types = insert l.server_feature_type true a.active_types;
    message_id = l.message_id;
  }),
  has-collect_active device q links (record {
    active_types = a.active_types;
    message_id = if a.message_id == 0 then l.message_id else a.message_id;
  }),
  lookup-insert l.server_feature_type q true a.active_types,
)

abbrev active_at : String → List Link → Active
active_at device links = collect_active device links (record { active_types = []; message_id = 0 })

has-active_at :
    (device q : String) (links : List Link)
    → has q (active_at device links).active_types ≡ is_served device links q
unfolding lookup
has-active_at device q links =
    has-collect_active device q links (record { active_types = []; message_id = 0 })

-- What holds of the types found holds of those served, and the other way round.
All-served :
    (device : String) (links : List Link) (b : Bool) (required : List String)
    → (All (λ q. has q (active_at device links).active_types ≡ b) required)
      ↔ (All (λ q. is_served device links q ≡ b) required)
All-served device links b required = (
  All-map _ _ (λ q h. sym (has-active_at device q links) ∙ h) required,
  All-map _ _ (λ q h. has-active_at device q links ∙ h) required,
)

found_of-All :
    (is_found : String → Bool) (required : List String)
    → All (λ r. is_found r ≡ true) required
    → found_of is_found required ≡ length required
found_of-All is_found [] h = refl
found_of-All is_found (r ∷ required) h = ground (arith, h.0, found_of-All is_found required h.1)

found_of-none :
    (is_found : String → Bool) (required : List String)
    → All (λ r. is_found r ≡ false) required
    → found_of is_found required ≡ 0
found_of-none is_found [] h = refl
found_of-none is_found (r ∷ required) h = ground (arith, h.0, found_of-none is_found required h.1)

found_of-le :
    (is_found : String → Bool) (required : List String)
    → found_of is_found required ≤ length required
found_of-le is_found [] = ground arith
found_of-le is_found (r ∷ required) = ground (arith, found_of-le is_found required)

All-found_of :
    (is_found : String → Bool) (required : List String)
    → found_of is_found required ≡ length required
    → All (λ r. is_found r ≡ true) required
All-found_of is_found [] h = tt
All-found_of is_found (r ∷ required) h = (
  ground (arith, h, found_of-le is_found required),
  All-found_of is_found required (ground (arith, h, found_of-le is_found required)),
)

none-found_of :
    (is_found : String → Bool) (required : List String)
    → found_of is_found required ≡ 0
    → All (λ r. is_found r ≡ false) required
none-found_of is_found [] h = tt
none-found_of is_found (r ∷ required) h =
    (ground (arith, h), none-found_of is_found required (ground (arith, h)))

module _ (fmt : Format) where
  conclude_lem :
      (name what state : String) (is_found : String → Bool) (r : String) (required : List String)
      (message_id : ℕ)
      → let step = conclude fmt name what state is_found (r ∷ required) message_id in
        ((step.status ≡ pass) ↔ (found_of is_found (r ∷ required) ≡ length (r ∷ required)))
        × ((step.status ≡ fail) ↔ (found_of is_found (r ∷ required) ≡ 0))
  unfolding conclude
  conclude_lem name what state is_found r required message_id = ground arith

  -- Where a use case requires something, the step passes if and only if every required feature type is
  -- served by an active entry of the device, and fails if and only if none is.
  pub evaluate_links_lem :
      (name what device r : String) (required : List String) (links : List Link)
      → ((evaluate_links fmt name what device (r ∷ required) links).status ≡ pass
          ↔ All (λ q. is_served device links q ≡ true) (r ∷ required))
        × ((evaluate_links fmt name what device (r ∷ required) links).status ≡ fail
            ↔ All (λ q. is_served device links q ≡ false) (r ∷ required))
  unfolding evaluate_links
  evaluate_links_lem name what device r required links =
      let found : String → Bool = λ q. has q (active_at device links).active_types in
      let c =
        conclude_lem name what " active" found r required (active_at device links).message_id in
      let pass_lem = All-served device links true (r ∷ required) in
      let fail_lem = All-served device links false (r ∷ required) in
      (
        (
          λ h. pass_lem.0 (All-found_of found (r ∷ required) (c.0.0 h)),
          λ h. c.0.1 (found_of-All found (r ∷ required) (pass_lem.1 h)),
        ),
        (
          λ h. fail_lem.0 (none-found_of found (r ∷ required) (c.1.0 h)),
          λ h. c.1.1 (found_of-none found (r ∷ required) (fail_lem.1 h)),
        ),
      )
