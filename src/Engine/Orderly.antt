-- ===== src/Engine/Orderly.antt =====
-- The engine (internal/capture/capture.go) under callers that start only when no source is running.
use mathlib.Core.Path.{subst}
use eebus_tracer.Prelude.{
  contains, ◌||◌, ◌==◌, ◌++◌, ℕ, ◌≡◌, refl, Bool, true, false, List, [], ◌∷◌, Option, arith, map,
  String, inl, inr, nat_eq, All, All-append, All-map, length, if_elim, unless_elim,
}
use eebus_tracer.Model.{Message}
use eebus_tracer.Parser.Library.{Decoders}
use eebus_tracer.Engine.{
  Error, Source, Stage, resting, received, sized, numbered, parsed, judged, System, new_system,
  start_with_source, stop, without, cancel_source, source_end, receive, advance_at, advance,
  inc_truncated, end_if, cancel_if, IsRunning,
}

abbrev pub IsIdle : Source → Type 0
IsIdle c = c.running ≡ false

-- What can happen next, in any order of the goroutines and the callers, but for the premise of
-- `started`. A source returns only when its callback has returned.
pub data Step (lib : Decoders) : System → System → Type 0 where
  started :
      (trace_id : ℕ) (name target : String) (s : System)
      → All IsIdle s.sources
      → Step lib s (start_with_source trace_id name target s).0
  refused :
      (trace_id : ℕ) (name target : String) (s : System)
      → s.engine.capturing ≡ true
      → Step lib s (start_with_source trace_id name target s).0
  stopped : (s : System) → Step lib s (stop s)
  cancelled : (i : ℕ) (s : System) → contains s.cancelling i ≡ true → Step lib s (cancel_source i s)
  emitted :
      (now : ℕ) (msg : Message) (i : ℕ) (s : System)
      → IsRunning i s.sources
      → s.stages i ≡ resting
      → Step lib s (receive i now msg s)
  advanced :
      (db_id : Option ℕ) (i : ℕ) (s : System)
      → IsRunning i s.sources
      → Step lib s (advance lib db_id i s)
  truncated : (i : ℕ) (s : System) → IsRunning i s.sources → Step lib s (inc_truncated s)
  ended :
      (i : ℕ) (s : System)
      → IsRunning i s.sources
      → s.stages i ≡ resting
      → Step lib s (source_end i s)

pub data Reach (lib : Decoders) : System → Type 0 where
  here : Reach lib new_system
  next : {s t : System} → Reach lib s → Step lib s t → Reach lib t

-- A running source is the one that the cancel function ends, and if it is not cancelled, the engine
-- says that it is capturing or a `Stop` is about to cancel it.
pub record Follows (current : ℕ) (guarded : Bool) (c : Source) : Type 0 where
  pub current_only : c.running ≡ true → c.id ≡ current
  pub no_leak : c.running ≡ true → c.cancelled ≡ false → guarded ≡ true

abbrev pub guarded : System → Bool
guarded s = s.engine.capturing || contains s.cancelling s.engine.cancel

abbrev pub Inv : System → Type 0
Inv s = All (Follows s.engine.cancel (guarded s)) s.sources

contains-last : (js : List ℕ) (k : ℕ) → contains (js ++ k ∷ []) k ≡ true
contains-last [] k = ground (arith, nat_eq.equals_iff k k)
contains-last (j ∷ js) k = ground (arith, contains-last js k)

idle-Follows : (k : ℕ) (b : Bool) (c : Source) → IsIdle c → Follows k b c
idle-Follows k b c h = ground arith

start-Inv :
    (trace_id : ℕ) (name target : String) (s : System)
    → All IsIdle s.sources
    → Inv s
    → Inv (start_with_source trace_id name target s).0
unfolding start_with_source
start-Inv trace_id name target s idle v =
    let k = length s.sources in
    if_elim {A = System × Option Error} (λ r. Inv r.0) s.engine.capturing _ _ (λ on. v)
      λ off.
        All-append (Follows k true) s.sources _
          (All-map IsIdle (Follows k true) (idle-Follows k true) s.sources idle)
          (record { current_only = λ _. refl; no_leak = λ _ _. refl }, tt)

refused-Inv :
    (trace_id : ℕ) (name target : String) (s : System)
    → s.engine.capturing ≡ true
    → Inv s
    → Inv (start_with_source trace_id name target s).0
unfolding start_with_source
refused-Inv trace_id name target s on v =
    if_elim {A = System × Option Error} (λ r. Inv r.0) s.engine.capturing _ _ (λ _. v) λ off. cc

stop-Inv : (s : System) → Inv s → Inv (stop s)
unfolding stop
stop-Inv s v =
    unless_elim Inv s.engine.capturing _ _ (λ off. v)
      λ on.
        subst (λ b. All (Follows s.engine.cancel b) s.sources)
          (ground (arith, on, contains-last s.cancelling s.engine.cancel)) v

contains-without :
    (i k : ℕ) (js : List ℕ) → (i == k) ≡ false → contains (without i js) k ≡ contains js k
contains-without i k [] h = refl
contains-without i k (j ∷ js) h =
    ground (arith, h, contains-without i k js h, nat_eq.equals_iff j i, nat_eq.equals_iff j k)

cancel-Follows :
    (k i : ℕ) (b d : Bool) (cs : List Source)
    → ((i == k) ≡ false → d ≡ b)
    → All (Follows k b) cs
    → All (Follows k d) (map (cancel_if i) cs)
cancel-Follows k i b d [] h v = tt
cancel-Follows k i b d (c ∷ cs) h v = (
  ground (arith, h, v.0.current_only, v.0.no_leak, nat_eq.equals_iff i k, nat_eq.equals_iff c.id i),
  cancel-Follows k i b d cs h v.1,
)

cancel_source-Inv : (i : ℕ) (s : System) → Inv s → Inv (cancel_source i s)
unfolding cancel_source
cancel_source-Inv i s v =
    cancel-Follows s.engine.cancel i (guarded s) (guarded (cancel_source i s)) s.sources
      (λ h. ground (arith, contains-without i s.engine.cancel s.cancelling h)) v

pub IsRunning-current :
    (k i : ℕ) (b : Bool) (cs : List Source) → All (Follows k b) cs → IsRunning i cs → i ≡ k
IsRunning-current k i b [] v r = absurd r
IsRunning-current k i b (c ∷ cs) v (inl h) = ground (arith, v.0.current_only)
IsRunning-current k i b (c ∷ cs) v (inr r) = IsRunning-current k i b cs v.1 r

end-Follows :
    (k : ℕ) (b d : Bool) (cs : List Source)
    → All (Follows k b) cs
    → All (Follows k d) (map (end_if k) cs)
end-Follows k b d [] v = tt
end-Follows k b d (c ∷ cs) v = (ground (arith, v.0.current_only), end-Follows k b d cs v.1)

ended-Inv : (i : ℕ) (s : System) → IsRunning i s.sources → Inv s → Inv (source_end i s)
unfolding source_end
ended-Inv i s r v =
    rw (IsRunning-current s.engine.cancel i (guarded s) s.sources v r)
      (end-Follows s.engine.cancel (guarded s) _ s.sources v)

module _ (lib : Decoders) where
  advance_at-Inv :
      (db_id : Option ℕ) (i : ℕ) (s : System) (st : Stage)
      → Inv s
      → Inv (advance_at lib db_id i s st)
  unfolding advance_at
  advance_at-Inv db_id i s resting v = v
  advance_at-Inv db_id i s (received now msg) v = v
  advance_at-Inv db_id i s (sized now msg) v = v
  advance_at-Inv db_id i s (numbered msg) v = v
  advance_at-Inv db_id i s (parsed msg) v = v
  advance_at-Inv db_id i s (judged msg) v = v

  pub Step-Inv : {s t : System} → Step lib s t → Inv s → Inv t
  unfolding receive advance inc_truncated
  Step-Inv (started trace_id name target s idle) v = start-Inv trace_id name target s idle v
  Step-Inv (refused trace_id name target s on) v = refused-Inv trace_id name target s on v
  Step-Inv (stopped s) v = stop-Inv s v
  Step-Inv (cancelled i s h) v = cancel_source-Inv i s v
  Step-Inv (emitted now msg i s r q) v = v
  Step-Inv (advanced db_id i s r) v = advance_at-Inv db_id i s (s.stages i) v
  Step-Inv (truncated i s r) v = v
  Step-Inv (ended i s r q) v = ended-Inv i s r v

  -- If every start comes when no source is running, or is refused, then at most one source runs, the
  -- one that `Stop` cancels, and while it runs and is not cancelled the engine reports the capture, or
  -- a `Stop` that has ended the capture is about to cancel it.
  pub Reach-Inv : {s : System} → Reach lib s → Inv s
  Reach-Inv here = tt
  Reach-Inv (next r st) = Step-Inv st (Reach-Inv r)
