-- ===== src/Hub/Order.antt =====
-- What a client of the hub (internal/api/hub.go) gets to see of the broadcast events.
use mathlib.Core.List.Sublist
use mathlib.Core.List.{Sublist}
use eebus_tracer.Prelude.{ℕ, suc, List, [], ◌∷◌, nat_eq, list_eq}
use eebus_tracer.Hub.{WsClient, Call, Hub}
use eebus_tracer.Hub.Safety.{IsValid}
use eebus_tracer.Hub.Visits.{IsCalled, Ordered}

module _ {C : Type 0} where
  -- Every element of a list at its place, the first at `k`.
  abbrev pub AllAt : (ℕ → C → Type 0) → ℕ → List C → Type 0
  AllAt P k [] = Unit
  AllAt P k (c ∷ cs) = P k c × AllAt P (suc k) cs

module _ {A : Type 0} where
  abbrev State : (ℕ → Call A) → ℕ → ℕ → WsClient A → Type 0
  State calls begun i c = IsValid c × Ordered calls begun i c

  -- What holds of the hub between two events.
  record IsHub (h : Hub A) : Type 0 where
    called : IsCalled h.calls h.begun
    states : AllAt (State h.calls h.begun) 0 h.clients

  abbrev pub AllOrdered : Hub A → Type 0
  AllOrdered h = AllAt (Ordered h.calls h.begun) 0 h.clients
