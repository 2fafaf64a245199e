-- ===== src/Engine/Counted.antt =====
-- The numbers and statistics of the engine (internal/capture/capture.go) over all its steps.
