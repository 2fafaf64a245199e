-- ===== src/Engine/Overlap.antt =====
-- A source that returns late, when the next capture has begun (internal/capture/capture.go).
use eebus_tracer.Prelude.{
  ℕ, ◌≡◌, ◌≢◌, refl, false, List, [], ◌∷◌, none, arith, map, String, inl, inr, nat_eq,
}
use eebus_tracer.Engine.{Source, System, start_with_source, stop, source_end, end_if, IsRunning}

pub IsRunning-end :
    (i j : ℕ) (cs : List Source) → i ≢ j → IsRunning j cs → IsRunning j (map (end_if i) cs)
IsRunning-end i j [] n r = r
IsRunning-end i j (c ∷ cs) n (inl h) = inl (ground arith)
IsRunning-end i j (c ∷ cs) n (inr r) = inr (IsRunning-end i j cs n r)

-- When a source returns, the engine reports that it is not capturing although another source is
-- running, and from then on `Stop` does nothing: it does not cancel that source, and the next start
-- is accepted beside it.
pub source_end-stale :
    (i j trace_id : ℕ) (name target : String) (s : System)
    → i ≢ j
    → IsRunning j s.sources
    → let t = source_end i s in
      (t.engine.capturing ≡ false)
      × IsRunning j t.sources
      × (stop t ≡ t)
      × ((start_with_source trace_id name target t).1 ≡ none)
unfolding source_end stop start_with_source
source_end-stale i j trace_id name target s n r =
    (refl, IsRunning-end i j s.sources n r, refl, refl)
