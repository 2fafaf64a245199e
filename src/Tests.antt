-- ===== src/Tests.antt =====
-- The theorems at concrete inputs, and runs of the definitions, by the parts of the program.
mod Frames
mod Live
mod Messages
mod Overview
mod Analysis
