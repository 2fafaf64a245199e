-- ===== src/Logs.antt =====
-- The formats of log files (internal/parser/logformat.go, and `DLTTextLineRegex` with its helpers in
-- internal/parser/dlt.go).
pub mod Regexp
pub mod Times
pub mod Patterns
pub mod Detect
