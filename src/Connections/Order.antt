-- ===== src/Connections/Order.antt =====
-- When a connection is reported out of order (internal/api/connections.go: `detectAnomalies`).
use eebus_tracer.Prelude.{
  ◌≤◌, ◌≡◌, ◌↔◌, refl, Bool, true, false, not, ◌&&◌, ◌||◌, List, [], ◌∷◌, ◌++◌, nat_eq, ltb,
  if◌then◌else◌, Bool-cases, inl, inr, arith,
}
use eebus_tracer.Connections.{
  State, StateEntry, Anomaly, rank, same_state, expected, seek, is_disordered, has_state,
  ends_closed, detect_anomalies,
}

-- The expected states from a given one on.
abbrev from : State → List State
from s = seek s expected

each_state :
    (P : State → Type 0)
    → P State.init
    → P State.hello
    → P State.handshake
    → P State.pin
    → P State.access
    → P State.data_exchange
    → P State.closed
    → (s : State) → P s
each_state P a b c d e f g State.init = a
each_state P a b c d e f g State.hello = b
each_state P a b c d e f g State.handshake = c
each_state P a b c d e f g State.pin = d
each_state P a b c d e f g State.access = e
each_state P a b c d e f g State.data_exchange = f
each_state P a b c d e f g State.closed = g

abbrev Sought : State → State → Type 0
Sought s q = seek s (from q) ≡ (if ltb (rank s) (rank q) then [] else from s)

seek-from : (s q : State) → Sought s q
unfolding seek
seek-from State.init q = each_state (Sought State.init) refl refl refl refl refl refl refl q
seek-from State.hello q = each_state (Sought State.hello) refl refl refl refl refl refl refl q
seek-from State.handshake q =
    each_state (Sought State.handshake) refl refl refl refl refl refl refl q
seek-from State.pin q = each_state (Sought State.pin) refl refl refl refl refl refl refl q
seek-from State.access q = each_state (Sought State.access) refl refl refl refl refl refl refl q
seek-from State.data_exchange q =
    each_state (Sought State.data_exchange) refl refl refl refl refl refl refl q
seek-from State.closed q = each_state (Sought State.closed) refl refl refl refl refl refl refl q

-- Apart from closing, no state comes before the one in front of it in the expected order.
abbrev pub Rises : State → List StateEntry → Type 0
Rises q [] = Unit
Rises q (e ∷ states) =
    if same_state e.state State.closed
    then Rises q states
    else (rank q ≤ rank e.state) × Rises e.state states

abbrev rest : State → List State
rest s = elim (from s) [ [] ↦ [] | x ∷ xs ↦ xs ]

from-open : (s : State) → same_state s State.closed ≡ false → from s ≡ s ∷ rest s
unfolding seek
from-open s =
    each_state (λ s. same_state s State.closed ≡ false → from s ≡ s ∷ rest s) (λ h. refl)
      (λ h. refl) (λ h. refl) (λ h. refl) (λ h. refl) (λ h. refl) (λ h. ground arith) s

continued_if :
    (b : Bool) (s : State) (xs : List State) (states : List StateEntry)
    → elim (if b then [] else s ∷ xs) [ [] ↦ true | x ∷ xs ↦ is_disordered states (x ∷ xs) ]
      ≡ (b || is_disordered states (s ∷ xs))
continued_if true s xs states = refl
continued_if false s xs states = refl

-- What one entry that is not closing adds to the test.
disordered_step :
    (e : StateEntry) (states : List StateEntry) (q : State)
    → same_state e.state State.closed ≡ false
    → is_disordered (e ∷ states) (from q)
      ≡ (ltb (rank e.state) (rank q) || is_disordered states (from e.state))
unfolding is_disordered
disordered_step e states q open_state =
    rw (open_state, is_disordered, seek-from e.state q, from-open e.state open_state)
      (continued_if (ltb (rank e.state) (rank q)) e.state (rest e.state) states)

is_disordered_lem :
    (states : List StateEntry) (q : State)
    → same_state q State.closed ≡ false
    → (is_disordered states (from q) ≡ false) ↔ Rises q states
unfolding is_disordered
is_disordered_lem [] q h = (λ _. tt, λ _. refl)
is_disordered_lem (e ∷ states) q h = elim (Bool-cases (same_state e.state State.closed)) [
  | inl shut ↦ rw (shut, is_disordered) (is_disordered_lem states q h)
  | inr open_state ↦ ground (
    arith,
    open_state,
    disordered_step e states q open_state,
    is_disordered_lem states e.state open_state,
  )
]

three :
    (a b c : Bool) (x y z : Anomaly)
    → (((if a then x ∷ [] else []) ++ ((if b then y ∷ [] else []) ++ (if c then z ∷ [] else [])))
        ≡ [])
      ↔ ((a ≡ false) × (b ≡ false) × (c ≡ false))
three true b c x y z = ground arith
three false true c x y z = ground arith
three false false c x y z = ground arith

-- What a trace without anomalies keeps: an initialised connection says hello, one that ends closed
-- has exchanged data, and the states apart from closing come in the expected order.
abbrev pub IsRegular : List StateEntry → Type 0
IsRegular states =
    (has_state State.init states ≡ true → has_state State.hello states ≡ true)
    × (ends_closed states ≡ true → has_state State.data_exchange states ≡ true)
    × Rises State.init states

and_not : (a b : Bool) → ((a && not b) ≡ false) ↔ (a ≡ true → b ≡ true)
and_not a b = ground arith

-- The anomalies of a connection are none exactly if an initialised connection has said hello, one
-- that ends closed has exchanged data, and the states apart from closing never fall back in the
-- expected order.
pub detect_anomalies-IsRegular :
    (states : List StateEntry) → (detect_anomalies states ≡ []) ↔ IsRegular states
unfolding detect_anomalies seek
detect_anomalies-IsRegular states = ground (
  arith,
  three (has_state State.init states && not (has_state State.hello states))
      (ends_closed states && not (has_state State.data_exchange states))
      (is_disordered states expected) Anomaly.missing_hello Anomaly.closed_before_data
      Anomaly.out_of_order,
  and_not (has_state State.init states) (has_state State.hello states),
  and_not (ends_closed states) (has_state State.data_exchange states),
  is_disordered_lem states State.init refl,
)
