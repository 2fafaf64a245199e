-- ===== src/Hub/Visits.antt =====
-- The calls of `BroadcastEvent` (internal/api/hub.go) and the order in which they come to a client.
use mathlib.Core.List.Sublist
use mathlib.Core.List.{Sublist}
use eebus_tracer.Prelude.{
  ℕ, ◌≡◌, refl, ◌∙◌, true, false, not, ◌&&◌, List, [], ◌∷◌, ◌++◌, none, some, arith, All, All-map,
  contains, ltb, ◌==◌, nat_eq, list_eq, if_elim,
}
use eebus_tracer.Hub.{WsClient, Call, Hub, set_call, without, begin_broadcast, end_broadcast}

pub contains-without :
    (i j : ℕ) (js : List ℕ) → contains (without i js) j ≡ (contains js j && not (i == j))
contains-without i j [] = refl
contains-without i j (k ∷ js) = ground (
  arith,
  contains-without i j js,
  nat_eq.equals_iff k i,
  nat_eq.equals_iff k j,
  nat_eq.equals_iff i j,
)

contains-empty : (l : List ℕ) (i : ℕ) → (l == []) ≡ true → contains l i ≡ false
contains-empty [] i h = refl
contains-empty (j ∷ l) i h = ground (arith, h)

abbrev pub Once : List ℕ → Type 0
Once [] = Unit
Once (b ∷ bs) = (contains bs b ≡ false) × Once bs

module _ {A : Type 0} where
  -- What is known of the calls: one that has not come to a client yet holds the lock and has begun, and
  -- one that had ended when another began does not hold it any more.
  pub record IsCalled (calls : ℕ → Call A) (begun : ℕ) : Type 0 where
    pub busy : (b i : ℕ) → contains (calls b).left i ≡ true → (calls b).holding ≡ true
    pub begun_only : (b : ℕ) → (calls b).holding ≡ true → ltb b begun ≡ true
    pub ended :
        (a b : ℕ)
        → (calls a).ended_before b ≡ true
        → ((calls b).holding ≡ false) × (ltb b begun ≡ true)

  pub begin_broadcast-IsCalled :
      (d : A) (h : Hub A)
      → IsCalled h.calls h.begun
      → IsCalled (begin_broadcast d h).calls (begin_broadcast d h).begun
  unfolding begin_broadcast
  begin_broadcast-IsCalled d h v = record {
    busy = λ b i e. ground (arith, v.busy b i, nat_eq.equals_iff b h.begun);
    begun_only = λ b e. ground (arith, v.begun_only b, nat_eq.equals_iff b h.begun);
    ended = λ a b e.
        ground (arith, v.ended a b, nat_eq.equals_iff a h.begun, nat_eq.equals_iff b h.begun);
  }

  -- Call `b` has come to client `i`.
  abbrev pub came_to : ℕ → ℕ → (ℕ → Call A) → ℕ → Call A
  came_to b i calls = set_call b (record (calls b) { left = without i (calls b).left }) calls

  pub came_to-IsCalled :
      (b i : ℕ) (calls : ℕ → Call A) (begun : ℕ)
      → IsCalled calls begun
      → IsCalled (came_to b i calls) begun
  came_to-IsCalled b i calls begun v = record {
    busy = λ a j e.
        ground (arith, v.busy a j, contains-without i j (calls b).left, nat_eq.equals_iff a b);
    begun_only = λ a e. ground (arith, v.begun_only a, nat_eq.equals_iff a b);
    ended = λ a c e. ground (arith, v.ended a c, nat_eq.equals_iff a b, nat_eq.equals_iff c b);
  }

  pub end_broadcast-IsCalled :
      (b : ℕ) (h : Hub A)
      → IsCalled h.calls h.begun
      → IsCalled (end_broadcast b h).calls (end_broadcast b h).begun
  unfolding end_broadcast
  end_broadcast-IsCalled b h v =
      if_elim {A = Hub A} (λ g. IsCalled g.calls g.begun)
        ((h.calls b).holding && (h.calls b).left == []) _ _
        (λ done. record {
          busy = λ a i e.
              ground
                (arith, done, v.busy a i, contains-empty (h.calls b).left i, nat_eq.equals_iff a b);
          begun_only = λ a e. ground (arith, v.begun_only a, nat_eq.equals_iff a b);
          ended =
              λ a c e. ground (arith, v.ended a c, nat_eq.equals_iff a b, nat_eq.equals_iff c b);
        })
        (λ open_call. v)

  -- The events of calls.
  abbrev pub events_of : (ℕ → Call A) → List ℕ → List A
  events_of calls [] = []
  events_of calls (b ∷ bs) = elim (calls b).event [
    | none ↦ events_of calls bs
    | some d ↦ d ∷ events_of calls bs
  ]

  -- No call comes behind one that began after its end.
  abbrev pub InTime : (ℕ → Call A) → List ℕ → Type 0
  InTime calls [] = Unit
  InTime calls (a ∷ bs) = All (λ b. (calls a).ended_before b ≡ false) bs × InTime calls bs

  abbrev pub IsVisited : (ℕ → Call A) → ℕ → ℕ → ℕ → Type 0
  IsVisited calls begun i b = (ltb b begun ≡ true) × (contains (calls b).left i ≡ false)

  -- The client with number `i` has, on its connection and then in its channel, events of calls that
  -- have come to it, in some order, each call once, and none behind one that began after its
  -- end.
  pub record Ordered (calls : ℕ → Call A) (begun i : ℕ) (c : WsClient A) : Type 0 where
    pub visits : List ℕ
    pub visited : All (IsVisited calls begun i) visits
    pub once : Once visits
    pub in_time : InTime calls visits
    pub seen : Sublist (c.written ++ c.buffer) (events_of calls visits)

  -- What later states keep of the calls that have begun.
  pub record Later (calls later : ℕ → Call A) (begun after : ℕ) : Type 0 where
    pub still_begun : (b : ℕ) → ltb b begun ≡ true → ltb b after ≡ true
    pub same_event : (b : ℕ) → ltb b begun ≡ true → (later b).event ≡ (calls b).event
    pub same_ended :
        (a b : ℕ) → ltb a begun ≡ true → (later a).ended_before b ≡ (calls a).ended_before b
    pub none_back :
        (b i : ℕ)
        → ltb b begun ≡ true
        → contains (calls b).left i ≡ false
        → contains (later b).left i ≡ false

  module _ (calls later : ℕ → Call A) (begun after i : ℕ) (l : Later calls later begun after) where
    pub IsVisited-Later :
        (bs : List ℕ) → All (IsVisited calls begun i) bs → All (IsVisited later after i) bs
    IsVisited-Later bs v =
        All-map (IsVisited calls begun i) (IsVisited later after i)
          (λ b h. (l.still_begun b h.0, l.none_back b i h.0 h.1)) bs v

    pub events-Later :
        (bs : List ℕ) → All (IsVisited calls begun i) bs → events_of later bs ≡ events_of calls bs
    events-Later [] v = refl
    events-Later (b ∷ bs) v = ground (arith, l.same_event b v.0.0, events-Later bs v.1)

    pub InTime-Later :
        (bs : List ℕ) → All (IsVisited calls begun i) bs → InTime calls bs → InTime later bs
    InTime-Later [] v t = tt
    InTime-Later (a ∷ bs) v t = (
      All-map (λ b. (calls a).ended_before b ≡ false) (λ b. (later a).ended_before b ≡ false)
          (λ b h. l.same_ended a b v.0.0 ∙ h) bs t.0,
      InTime-Later bs v.1 t.1,
    )

    -- A client that shows no more than before.
    pub Ordered-Later :
        (c d : WsClient A)
        → Sublist (d.written ++ d.buffer) (c.written ++ c.buffer)
        → Ordered calls begun i c
        → Ordered later after i d
    Ordered-Later c d less o = record {
      visits = o.visits;
      visited = IsVisited-Later o.visits o.visited;
      once = o.once;
      in_time = InTime-Later o.visits o.visited o.in_time;
      seen = rw (events-Later o.visits o.visited) (Sublist.trans less o.seen);
    }
