-- ===== src/Dlt.antt =====
-- AUTOSAR DLT frames and the EEBus text that they carry (internal/parser/dlt.go,
-- internal/parser/dltbin.go) and the APID/CTID filter (internal/capture/source_dlt.go).
pub mod Bytes
pub mod CompleteJson
pub mod Patterns
pub mod Extract
pub mod Suffix
pub mod Delivery
pub mod Frame
