-- ===== src/Hub.antt =====
-- The WebSocket hub (internal/api/hub.go): who is registered, the bounded channel of each client,
-- and the goroutines of the clients and of the broadcasts as events that may come in any order. An
-- event takes the hub's lock once, or touches one channel: a broadcast holds the lock for reading while
-- it visits the clients one by one, so that several run at once and a writer waits.
pub mod Safety
pub mod Visits
pub mod Changes
pub mod Sent
pub mod Order
use eebus_tracer.Prelude.{
  ℕ, zero, suc, ◌-◌, Bool, true, false, not, ◌&&◌, List, [], ◌∷◌, ◌++◌, Option, none, some, ltb,
  length, if◌then◌else◌, ◌==◌, nat_eq, list_eq, contains,
}

abbrev pub client_buffer_size : ℕ
client_buffer_size = 256

-- `wsClient` with its channel. `registered` says that it is a key of `h.clients`; `written` is what
-- `writePump` has written to the connection; `pumping` is false once `writePump` has returned.
pub record WsClient (A : Type 0) : Type 0 where
  pub registered : Bool
  pub closed : Bool
  pub buffer : List A
  pub written : List A
  pub pumping : Bool

module _ {A : Type 0} where
  abbrev pub new_client : WsClient A
  new_client = record {
    registered = true;
    closed = false;
    buffer = [];
    written = [];
    pumping = true;
  }

  -- `select { case client.send <- data: default: }`; `none` is the panic of a send on a closed
  -- channel.
  unfoldable pub try_send : A → WsClient A → Option (WsClient A)
  try_send d c =
      if c.closed
      then none
      else if ltb (length c.buffer) client_buffer_size
      then some (record c { buffer = c.buffer ++ d ∷ [] })
      else some c

  -- The body of the loop of `BroadcastEvent`, which ranges over the registered clients.
  unfoldable pub send_if_registered : A → WsClient A → Option (WsClient A)
  unfolding try_send
  send_if_registered d c = if c.registered then try_send d c else some c

  -- `unregister`; `none` is the panic of closing a closed channel.
  unfoldable pub unregister_client : WsClient A → Option (WsClient A)
  unregister_client c =
      if not c.registered
      then some c
      else if c.closed
      then none
      else some (record c { registered = false; closed = true })

  -- A round of `writePump`. On an empty channel it waits, or returns if the channel is closed;
  -- `sent` tells whether the write succeeds. After a failed one it calls `unregister`, an event of its
  -- own, and returns.
  unfoldable pub write_pump_from : Bool → WsClient A → List A → WsClient A
  write_pump_from sent c [] = record c { pumping = not c.closed }
  write_pump_from true c (d ∷ rest) = record c { buffer = rest; written = c.written ++ d ∷ [] }
  write_pump_from false c (d ∷ rest) = record c { buffer = rest; pumping = false }

  unfoldable pub write_pump : Bool → WsClient A → Option (WsClient A)
  unfolding write_pump_from
  write_pump sent c = some (if c.pumping then write_pump_from sent c c.buffer else c)

  -- A change of one client, by its number.
  unfoldable pub at_client :
      ℕ → (WsClient A → Option (WsClient A)) → List (WsClient A) → Option (List (WsClient A))
  at_client i f [] = some []
  at_client zero f (c ∷ cs) = elim (f c) [ none ↦ none | some c' ↦ some (c' ∷ cs) ]
  at_client (suc i) f (c ∷ cs) = elim (at_client i f cs) [ none ↦ none | some cs' ↦ some (c ∷ cs') ]

-- A call of `BroadcastEvent`: its marshalled event, the numbers of the clients that its loop has not
-- come to, whether it holds the lock, and which calls had ended when it took the lock.
pub record Call (A : Type 0) : Type 0 where
  pub event : Option A
  pub left : List ℕ
  pub holding : Bool
  pub ended_before : ℕ → Bool

-- `Hub`: the clients by the order of their registration, those that are gone included, the calls of
-- `BroadcastEvent` by their numbers, and how many of them hold the lock for reading.
pub record Hub (A : Type 0) : Type 0 where
  pub clients : List (WsClient A)
  pub calls : ℕ → Call A
  pub begun : ℕ
  pub readers : ℕ

-- `Register`; `BroadcastEvent` begins with the marshalled event, or with the error of `json.Marshal`;
-- call `b` comes to client `i`, whichever is next in the map; call `b` ends; `unregister` of a client,
-- from `readPump` or a failed write; `writePump` of a client takes a round.
pub data Event (A : Type 0) : Type 0 where
  register : Event A
  broadcast : Option A → Event A
  visit : ℕ → ℕ → Event A
  broadcast_end : ℕ → Event A
  unregister : ℕ → Event A
  write : ℕ → Bool → Event A

abbrev pub upto : ℕ → List ℕ
upto zero = []
upto (suc n) = n ∷ upto n

abbrev pub without : ℕ → List ℕ → List ℕ
without i [] = []
without i (j ∷ js) = if j == i then without i js else j ∷ without i js

module _ {A : Type 0} where
  -- `NewHub`
  abbrev pub new_hub : Hub A
  new_hub = record {
    clients = [];
    calls = λ b. record { event = none; left = []; holding = false; ended_before = λ y. false };
    begun = 0;
    readers = 0;
  }

  abbrev pub set_call : ℕ → Call A → (ℕ → Call A) → ℕ → Call A
  set_call b call calls j = if j == b then call else calls j

  -- `BroadcastEvent` up to the lock.
  unfoldable pub begin_broadcast : A → Hub A → Hub A
  begin_broadcast d h = record h {
    calls =
        set_call h.begun
          (record {
            event = some d;
            left = upto (length h.clients);
            holding = true;
            ended_before = λ y. ltb y h.begun && not (h.calls y).holding;
          })
          h.calls;
    begun = suc h.begun;
    readers = suc h.readers;
  }

  -- A round of the loop of `BroadcastEvent`: an event that call `b` has for client `i`.
  unfoldable pub send_event : ℕ → ℕ → A → Hub A → Option (Hub A)
  unfolding send_if_registered at_client
  send_event b i d h = elim (at_client i (send_if_registered d) h.clients) [
    | none ↦ none
    | some cs ↦ some (record h {
      clients = cs;
      calls = set_call b (record (h.calls b) { left = without i (h.calls b).left }) h.calls;
    })
  ]

  unfoldable pub visit_client : ℕ → ℕ → Hub A → Option (Hub A)
  unfolding send_event
  visit_client b i h = elim (h.calls b).event [
    | none ↦ some h
    | some d ↦ if contains (h.calls b).left i then send_event b i d h else some h
  ]

  -- The end of call `b`, once its loop has come to all clients.
  unfoldable pub end_broadcast : ℕ → Hub A → Hub A
  end_broadcast b h =
      if (h.calls b).holding && (h.calls b).left == []
      then record h {
        calls = set_call b (record (h.calls b) { holding = false }) h.calls;
        readers = h.readers - 1;
      }
      else h

  abbrev pub with_clients : Hub A → Option (List (WsClient A)) → Option (Hub A)
  with_clients h none = none
  with_clients h (some cs) = some (record h { clients = cs })

  -- Under the lock for writing: while a call holds it for reading, nothing happens, and the event comes
  -- again later.
  unfoldable pub handle : Event A → Hub A → Option (Hub A)
  unfolding begin_broadcast visit_client end_broadcast unregister_client write_pump at_client
  handle register h =
      if h.readers == 0 then some (record h { clients = h.clients ++ new_client ∷ [] }) else some h
  handle (broadcast none) h = some h
  handle (broadcast (some d)) h = some (begin_broadcast d h)
  handle (visit b i) h = visit_client b i h
  handle (broadcast_end b) h = some (end_broadcast b h)
  handle (unregister i) h =
      if h.readers == 0 then with_clients h (at_client i unregister_client h.clients) else some h
  handle (write i sent) h = with_clients h (at_client i (write_pump sent) h.clients)

  unfoldable pub run : List (Event A) → Hub A → Option (Hub A)
  unfolding handle
  run [] h = some h
  run (e ∷ es) h = elim (handle e h) [ none ↦ none | some h' ↦ run es h' ]

  -- `ClientCount`
  unfoldable pub client_count : List (WsClient A) → ℕ
  client_count [] = 0
  client_count (c ∷ cs) = let n = client_count cs in if c.registered then suc n else n
