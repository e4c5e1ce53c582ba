-- ===== src/Storage.antt =====
-- The way of rows into the WAL and from there into Parquet files, up to the file writer
-- (crates/core/zradar-parquet/src, and builder.rs of crates/runtime/zradar-runtime/src).
pub mod Keys
pub mod WriteBuffer
pub mod FlushWorker
pub mod Writer
pub mod Sink
pub mod WalWriter
