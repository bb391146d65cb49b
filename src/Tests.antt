-- ===== src/Tests.antt =====
-- The theorems at concrete inputs, and runs of the definitions.
pub mod Reader
pub mod Buffer
pub mod Buffered
pub mod Globs
pub mod Files
pub mod Runs
pub mod Darwin
pub mod Windows
pub mod Events
pub mod Command
