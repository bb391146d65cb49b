-- ===== src/FileTailer/Total.antt =====
-- Whether the tailer's calls return, fswatcher.go and fswatcher_linux.go.
pub mod Reads
pub mod Syncs
pub mod Events
