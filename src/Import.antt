-- ===== src/Import.antt =====
-- The import of log files (internal/store/logimport.go): the lines of a file and the trace that is
-- made of them, and one importer for each format. Texts are bytes.
pub mod Lines
pub mod Progress
pub mod Handlers
pub mod Importers
pub mod Binary
pub mod Eet
pub mod Auto
pub mod Numbers
pub mod Frames
pub mod Traces
pub mod Content
pub mod Exported
