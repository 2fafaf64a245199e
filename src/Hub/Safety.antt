-- ===== src/Hub/Safety.antt =====
-- The hub (internal/api/hub.go) neither sends on nor closes a closed channel.
use eebus_tracer.Prelude.{
  ℕ, zero, suc, ◌≤◌, ◌≡◌, refl, Bool, true, false, List, [], ◌∷◌, Option, none, some, arith, length,
  All, length-append, All-append, not, Succeeds, Succeeds-elim, option_elim, if_both, contains,
  ◌==◌, nat_eq, list_eq, ◌&&◌,
}
use eebus_tracer.Hub.{
  WsClient, new_client, send_if_registered, unregister_client, write_pump_from, write_pump,
  at_client, Hub, new_hub, Event, register, broadcast, visit, broadcast_end, unregister, write,
  begin_broadcast, send_event, visit_client, end_broadcast, with_clients, handle, run,
  client_buffer_size,
}

module _ {A : Type 0} where
  -- A channel is closed exactly when its client is no longer registered, and never holds more than
  -- its capacity.
  pub record IsValid (c : WsClient A) : Type 0 where
    pub open_iff : c.closed ≡ not c.registered
    pub bounded : length c.buffer ≤ client_buffer_size

  pub send_if_registered-IsValid :
      (d : A) (c : WsClient A) → IsValid c → Succeeds IsValid (send_if_registered d c)
  unfolding send_if_registered
  send_if_registered-IsValid d c v = ground (arith, length-append c.buffer (d ∷ []))

  pub unregister_client-IsValid :
      (c : WsClient A) → IsValid c → Succeeds IsValid (unregister_client c)
  unfolding unregister_client
  unregister_client-IsValid c v = ground arith

  write_pump_from-IsValid :
      (sent : Bool) (c : WsClient A) (b : List A)
      → IsValid c
      → length b ≤ client_buffer_size
      → IsValid (write_pump_from sent c b)
  unfolding write_pump_from
  write_pump_from-IsValid sent c [] v h = ground arith
  write_pump_from-IsValid true c (d ∷ b) v h = ground arith
  write_pump_from-IsValid false c (d ∷ b) v h = ground arith

  pub write_pump-IsValid :
      (sent : Bool) (c : WsClient A) → IsValid c → Succeeds IsValid (write_pump sent c)
  unfolding write_pump
  write_pump-IsValid sent c v = ground (arith, write_pump_from-IsValid sent c c.buffer v v.bounded)

  pub at_client-All :
      (P : WsClient A → Type 0) (i : ℕ) (f : WsClient A → Option (WsClient A))
      (cs : List (WsClient A))
      → ((c : WsClient A) → P c → Succeeds P (f c))
      → All P cs
      → Succeeds (All P) (at_client i f cs)
  unfolding at_client
  at_client-All P i f [] h v = tt
  at_client-All P zero f (c ∷ cs) h v = ground (arith, h c v.0)
  at_client-All P (suc i) f (c ∷ cs) h v = ground (arith, at_client-All P i f cs h v.1)

  pub new_client-IsValid : IsValid new_client
  new_client-IsValid = record { open_iff = refl; bounded = omega arith }

  -- Every client of the hub is valid.
  abbrev pub AllValid : Hub A → Type 0
  AllValid h = All IsValid h.clients

  with_clients-AllValid :
      (h : Hub A) (o : Option (List (WsClient A)))
      → Succeeds (All IsValid) o
      → Succeeds AllValid (with_clients h o)
  with_clients-AllValid h none v = v
  with_clients-AllValid h (some cs) v = v

  visit_client-AllValid :
      (b i : ℕ) (h : Hub A) → AllValid h → Succeeds AllValid (visit_client b i h)
  unfolding visit_client send_event
  visit_client-AllValid b i h v =
      option_elim (Succeeds AllValid) (h.calls b).event _ _ (λ e. v)
        (λ d e.
          if_both (Succeeds AllValid) (contains (h.calls b).left i) _ _
            (Succeeds-elim (All IsValid) AllValid (at_client i (send_if_registered d) h.clients) _
              (at_client-All IsValid i (send_if_registered d) h.clients
                (send_if_registered-IsValid d) v)
              (λ cs w. w))
            v)

  handle-AllValid : (e : Event A) (h : Hub A) → AllValid h → Succeeds AllValid (handle e h)
  unfolding handle begin_broadcast end_broadcast
  handle-AllValid register h v =
      if_both (Succeeds AllValid) (h.readers == 0) _ _
        (All-append IsValid h.clients (new_client ∷ []) v (new_client-IsValid, tt)) v
  handle-AllValid (broadcast none) h v = v
  handle-AllValid (broadcast (some d)) h v = v
  handle-AllValid (visit b i) h v = visit_client-AllValid b i h v
  handle-AllValid (broadcast_end b) h v =
      if_both AllValid ((h.calls b).holding && (h.calls b).left == []) _ _ v v
  handle-AllValid (unregister i) h v =
      if_both (Succeeds AllValid) (h.readers == 0) _ _
        (with_clients-AllValid h _
          (at_client-All IsValid i unregister_client h.clients unregister_client-IsValid v))
        v
  handle-AllValid (write i sent) h v =
      with_clients-AllValid h _
        (at_client-All IsValid i (write_pump sent) h.clients (write_pump-IsValid sent) v)

  run-AllValid : (es : List (Event A)) (h : Hub A) → AllValid h → Succeeds AllValid (run es h)
  unfolding run
  run-AllValid [] h v = v
  run-AllValid (e ∷ es) h v =
      Succeeds-elim AllValid AllValid (handle e h) (run es) (handle-AllValid e h v)
        (run-AllValid es)

  -- Whatever the order of the events, those of several broadcasts at once included, no channel is closed
  -- twice or sent on once closed, a channel is closed exactly when its client is gone, and no channel
  -- holds more than its capacity.
  pub run_safe : (es : List (Event A)) → Succeeds AllValid (run es new_hub)
  run_safe es = run-AllValid es new_hub tt
