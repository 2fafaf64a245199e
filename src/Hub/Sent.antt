-- ===== src/Hub/Sent.antt =====
-- What a client has seen once a call of `BroadcastEvent` (internal/api/hub.go) has come to it.
use mathlib.Core.Path.{subst}
use mathlib.Core.List.Sublist
use mathlib.Core.List.{Sublist}
use eebus_tracer.Prelude.{
  ℕ, ◌≡◌, refl, sym, ap, true, false, List, [], ◌∷◌, ◌++◌, some, arith, All, All-append, Succeeds,
  Succeeds-and, inl, inr, contains, nat_eq, list_eq,
}
use eebus_tracer.Hub.{WsClient, send_if_registered, Call}
use eebus_tracer.Hub.Safety.{IsValid, send_if_registered-IsValid}
use eebus_tracer.Hub.Visits.{
  IsCalled, came_to, contains-without, events_of, InTime, IsVisited, Ordered, Later,
  IsVisited-Later, events-Later, InTime-Later, Ordered-Later,
}
use eebus_tracer.Hub.Changes.{seen, Once-append, seen-send, came_to-Later}

module _ {A : Type 0} where
  InTime-append :
      (calls : ℕ → Call A) (bs : List ℕ) (b : ℕ)
      → InTime calls bs
      → ((a : ℕ) → (calls a).ended_before b ≡ false)
      → InTime calls (bs ++ b ∷ [])
  InTime-append calls [] b t h = (tt, tt)
  InTime-append calls (a ∷ bs) b t h = (
    All-append (λ b. (calls a).ended_before b ≡ false) bs (b ∷ []) t.0 (h a, tt),
    InTime-append calls bs b t.1 h,
  )

  events-append :
      (calls : ℕ → Call A) (bs : List ℕ) (b : ℕ) (d : A)
      → (calls b).event ≡ some d
      → events_of calls (bs ++ b ∷ []) ≡ events_of calls bs ++ d ∷ []
  events-append calls [] b d h = ground (arith, h)
  events-append calls (a ∷ bs) b d h = ground (arith, events-append calls bs b d h)

  unvisited :
      (calls : ℕ → Call A) (begun i b : ℕ) (bs : List ℕ)
      → contains (calls b).left i ≡ true
      → All (IsVisited calls begun i) bs
      → contains bs b ≡ false
  unvisited calls begun i b [] h v = refl
  unvisited calls begun i b (a ∷ bs) h v = ground (
    arith,
    h,
    v.0.1,
    unvisited calls begun i b bs h v.1,
    nat_eq.equals_iff a b,
    ap (λ x. contains (calls x).left i),
  )

  -- Call `b` comes to client `i` with its event `d`.
  module _ (calls : ℕ → Call A) (begun b i : ℕ) (d : A) (called : IsCalled calls begun)
      (coming : contains (calls b).left i ≡ true) (has : (calls b).event ≡ some d) where
    later : Later calls (came_to b i calls) begun begun
    later = came_to-Later b i calls begun

    not_ended : (a : ℕ) → (calls a).ended_before b ≡ false
    not_ended a = ground (arith, called.ended a b, called.busy b i coming)

    sent-Ordered :
        (c c' : WsClient A)
        → seen c' ≡ seen c ++ d ∷ []
        → Ordered calls begun i c
        → Ordered (came_to b i calls) begun i c'
    sent-Ordered c c' more o =
        let old = came_to b i calls in
        record {
          visits = o.visits ++ b ∷ [];
          visited =
              All-append (IsVisited old begun i) o.visits (b ∷ [])
                (IsVisited-Later calls old begun begun i later o.visits o.visited)
                (
                  (
                    called.begun_only b (called.busy b i coming),
                    ground (
                      arith,
                      contains-without i i (calls b).left,
                      nat_eq.equals_iff b b,
                      nat_eq.equals_iff i i,
                    ),
                  ),
                  tt,
                );
          once =
              Once-append o.visits b o.once (unvisited calls begun i b o.visits coming o.visited);
          in_time =
              InTime-append old o.visits b
                (InTime-Later calls old begun begun i later o.visits o.visited o.in_time)
                (λ a. ground (arith, not_ended a, nat_eq.equals_iff a b, not_ended b));
          seen =
              rw
                (
                  more,
                  events-append old o.visits b d (ground (arith, has, nat_eq.equals_iff b b)),
                  events-Later calls old begun begun i later o.visits o.visited,
                )
                (Sublist.append o.seen (Sublist.refl (d ∷ [])));
        }

    pub send-Ordered :
        (c : WsClient A)
        → IsValid c × Ordered calls begun i c
        → Succeeds
            (λ c'. IsValid c' × Ordered (came_to b i calls) begun i c')
            (send_if_registered d c)
    send-Ordered c (v, o) =
        Succeeds-and IsValid (Ordered (came_to b i calls) begun i) (send_if_registered d c)
          (send_if_registered-IsValid d c v)
          λ c' e. elim (seen-send d c c' e) [
            | inl same ↦
                Ordered-Later calls (came_to b i calls) begun begun i later c c'
                  (subst (λ l. Sublist l (seen c)) (sym same) (Sublist.refl (seen c))) o
            | inr more ↦ sent-Ordered c c' more o
          ]
