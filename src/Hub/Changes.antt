-- ===== src/Hub/Changes.antt =====
-- What the steps of the hub (internal/api/hub.go) change of what a client has seen, and of the calls.
use mathlib.Core.Path.{subst}
use mathlib.Core.List.Sublist
use mathlib.Core.List.{Sublist}
use eebus_tracer.Prelude.{
  ◌||◌, ℕ, ◌≡◌, refl, Bool, true, false, ◌&&◌, List, [], ◌∷◌, ◌++◌, append_assoc, some, arith, ◌⊎◌,
  contains, ◌==◌, nat_eq, list_eq, if◌then◌else◌, if_both,
}
use eebus_tracer.Hub.{
  WsClient, send_if_registered, unregister_client, write_pump_from, write_pump, Call, Hub,
  begin_broadcast, end_broadcast,
}
use eebus_tracer.Hub.Visits.{came_to, contains-without, Once, Later}

contains-snoc : (bs : List ℕ) (b a : ℕ) → contains (bs ++ b ∷ []) a ≡ (contains bs a || b == a)
contains-snoc [] b a = ground arith
contains-snoc (c ∷ bs) b a = ground (arith, contains-snoc bs b a)

pub Once-append : (bs : List ℕ) (b : ℕ) → Once bs → contains bs b ≡ false → Once (bs ++ b ∷ [])
Once-append [] b o h = (refl, tt)
Once-append (a ∷ bs) b o h = (
  ground (arith, o.0, h, contains-snoc bs b a, nat_eq.equals_iff a b),
  Once-append bs b o.1 (ground (arith, h)),
)

module _ {A : Type 0} where
  abbrev pub seen : WsClient A → List A
  seen c = c.written ++ c.buffer

  pub seen-send :
      (d : A) (c c' : WsClient A)
      → send_if_registered d c ≡ some c'
      → ((seen c' ≡ seen c) ⊎ (seen c' ≡ seen c ++ d ∷ []))
  unfolding send_if_registered
  seen-send d c c' h = ground (arith, append_assoc c.written c.buffer (d ∷ []))

  pub seen-unregister : (c c' : WsClient A) → unregister_client c ≡ some c' → seen c' ≡ seen c
  unfolding unregister_client
  seen-unregister c c' h = ground arith

  seen-write_from :
      (sent : Bool) (c : WsClient A) (b : List A)
      → c.buffer ≡ b
      → Sublist (seen (write_pump_from sent c b)) (seen c)
  unfolding write_pump_from
  seen-write_from sent c [] e = Sublist.refl (seen c)
  seen-write_from true c (d ∷ b) e =
      rw (e, append_assoc c.written (d ∷ []) b) (Sublist.refl (c.written ++ d ∷ b))
  seen-write_from false c (d ∷ b) e =
      rw e (Sublist.append (Sublist.refl c.written) (Sublist.cons d (Sublist.refl b)))

  pub seen-write :
      (sent : Bool) (c c' : WsClient A) → write_pump sent c ≡ some c' → Sublist (seen c') (seen c)
  unfolding write_pump
  seen-write sent c c' h =
      let next = if c.pumping then write_pump_from sent c c.buffer else c in
      let same : next ≡ c' = ground (arith, h) in
      subst (λ d. Sublist (seen d) (seen c)) same
        (if_both (λ d. Sublist (seen d) (seen c)) c.pumping _ _
          (seen-write_from sent c c.buffer refl) (Sublist.refl (seen c)))

  pub begin_broadcast-Later :
      (d : A) (h : Hub A)
      → Later h.calls (begin_broadcast d h).calls h.begun (begin_broadcast d h).begun
  unfolding begin_broadcast
  begin_broadcast-Later d h = record {
    still_begun = λ b e. ground (arith, e);
    same_event = λ b e. ground (arith, e, nat_eq.equals_iff b h.begun);
    same_ended = λ a b e. ground (arith, e, nat_eq.equals_iff a h.begun);
    none_back = λ b i e f. ground (arith, e, f, nat_eq.equals_iff b h.begun);
  }

  pub came_to-Later :
      (b i : ℕ) (calls : ℕ → Call A) (begun : ℕ) → Later calls (came_to b i calls) begun begun
  came_to-Later b i calls begun = record {
    still_begun = λ a e. e;
    same_event = λ a e. ground (arith, nat_eq.equals_iff a b);
    same_ended = λ a c e. ground (arith, nat_eq.equals_iff a b);
    none_back =
        λ a j e f. ground (arith, f, contains-without i j (calls b).left, nat_eq.equals_iff a b);
  }

  pub end_broadcast-Later :
      (b : ℕ) (h : Hub A)
      → Later h.calls (end_broadcast b h).calls h.begun (end_broadcast b h).begun
  unfolding end_broadcast
  end_broadcast-Later b h =
      if_both {A = Hub A} (λ g. Later h.calls g.calls h.begun g.begun)
        ((h.calls b).holding && (h.calls b).left == []) _ _
        (record {
          still_begun = λ a e. e;
          same_event = λ a e. ground (arith, nat_eq.equals_iff a b);
          same_ended = λ a c e. ground (arith, nat_eq.equals_iff a b);
          none_back = λ a j e f. ground (arith, f, nat_eq.equals_iff a b);
        })
        (record {
          still_begun = λ a e. e;
          same_event = λ a e. refl;
          same_ended = λ a c e. refl;
          none_back = λ a j e f. f;
        })
