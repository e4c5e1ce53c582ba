-- ===== src/Wal.antt =====
-- The write-ahead log (crates/core/zradar-wal/src).
pub mod Record
pub mod Batch
pub mod Segment
pub mod AppendError
pub mod Disk
pub mod Dir
pub mod GroupCommit
pub mod Log
pub mod Checkpoint
pub mod Flusher
pub mod Replay
pub mod Janitor
pub mod Open
pub mod Background
