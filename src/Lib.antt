-- ===== src/Lib.antt =====
-- A model of zradar's ingestion core.
--
-- zradar takes telemetry in over OTLP. An export request passes the caps on its size, the circuit
-- breaker, the settings of its workspace and its policy (crates/services/api-optel,
-- crates/core/zradar-policy); its rows are packed into an envelope and appended to a write-ahead log,
-- and the request is acknowledged after an fsync (crates/core/zradar-wal). In the background a flusher
-- hands the log's records to Parquet storage and moves a checkpoint, and a janitor deletes segments
-- behind it.
--
-- Base holds the numbers, lists, bytes, integers (the i64 of the source with its saturating
-- arithmetic) and results that the other modules share.
--
-- Wal, crates/core/zradar-wal/src:
--   Wal/Record is record.rs (WalRecord::serialize, deserialize); Record/Bounds and Record/Roundtrip
--   hold its laws. Wal/Batch is batch.rs (encode_json_rows, decode), with Batch/Roundtrip.
--   Wal/Segment is segment.rs (SegmentReader, header, truncate_segment); Segment/Scan is the loop over
--   next_record, Segment/Frames a segment of whole records,
--   Segment/Zeros one with a tail of zeros.
--   Wal/Dir is the directory of segment files, ordered by id as list_segments sorts them.
--   Wal/Disk is disk.rs (DiskSpaceGuard), Wal/AppendError and Wal/GroupCommit are group_commit.rs
--   (FsyncQueue, a round of group_commit_loop), Wal/Checkpoint is checkpoint.rs.
--   Wal/Log is lib.rs (Wal::append with rotation); Log/View reads a log as the list of its records,
--   Log/Append is the run without faults, Log/Faulty the run with them.
--   Wal/Flusher is flusher.rs (flush_once); Flusher/Pending is what lies behind a checkpoint,
--   Flusher/Pass a pass with any sink, Flusher/Complete a pass that nothing stops.
--   Wal/Janitor is janitor.rs (cleanup_once). Wal/Open is Wal::open of lib.rs on a disk whose calls
--   succeed; Open/Recovers is what it recovers.
--   Wal/Replay is replay.rs (WalReplayer::replay); Replay/Segments and Replay/Reads are what it does to
--   one segment, Replay/Sends to a log.
--   Wal/Background runs passes of the flusher and of the janitor in any order.
--
-- Policy, crates/core/zradar-policy/src:
--   Policy/Types is types.rs and the reader of traits.rs; Policy/Limits is the comparison and the
--   threshold events of enforcer.rs, Policy/Checks its checks of one limit, Policy/Enforcer
--   check_ingest, check_query and the audit.
--
-- Ingest, crates/services/api-optel/src:
--   Ingest/Caps is parser_caps.rs, Ingest/Breaker circuit_breaker.rs, Ingest/Guard
--   ingestion_guard.rs, Ingest/Status the statuses of retry.rs and ingestion_guard.rs.
--
-- Storage, crates/core/zradar-parquet/src:
--   Storage/Keys is the partition key of telemetry_writer.rs and the hour of writer.rs, with Keys/Hours.
--   Storage/WriteBuffer is write_buffer.rs, WriteBuffer/Drain its draining and counts;
--   WriteBuffer/Rows reads a buffer as the rows of each key, WriteBuffer/Pushes, Drain/Splits and
--   Drain/Due are what the operations do to them. Storage/FlushWorker is flush_worker.rs,
--   FlushWorker/Accounts what a
--   run of it keeps. Storage/Writer is telemetry_writer.rs (ParquetTelemetryWriter); Writer/Groups is
--   its partitioning, Writer/Routes where a batch goes. Storage/Sink is TelemetryFlushSink of
--   crates/runtime/zradar-runtime/src/builder.rs, which the WAL's flusher and replay hand their records
--   to; Sink/Arrives is what it decodes, Sink/Inserts where the rows arrive. Storage/WalWriter is
--   WalTelemetryWriter of the same file, which appends the rows of the requests to the WAL;
--   WalWriter/Grouped is what the sink reads in its records, WalWriter/Logged what a batch leaves in
--   the log.
--
-- Retention, crates/core/zradar-retention/src and crates/core/zradar-traits/src/file_lease.rs:
--   Retention/Config is config.rs, Retention/Enforcer enforcer.rs, Enforcer/Covers the enforcer and the
--   cleanup together; Retention/Cleanup is cleanup.rs, with Cleanup/Expires and Cleanup/Marks;
--   Retention/Leases is file_lease.rs, with Leases/Counts; Retention/Reclaimer is file_reclaimer.rs,
--   with Reclaimer/Disposes and Reclaimer/Removes.
--
-- Examples runs the models and the theorems at concrete values.
--
-- State is passed on: an operation takes the state and gives the new one, with its answer beside it.
-- A call that may fail takes what happens as an argument: Faults for the disk, Probe for the clock
-- and a measurement, sink_ok and save_ok for the flusher, remove_ok for the janitor, write_ok for
-- the Parquet file writer, parse and to_vec for the JSON of a row, parse_uuid for the text of a
-- UUID, durable for the fsync of a ticket, UsageReader for the use of a workspace. A panic is a
-- value of its own. The CRC-32 is a parameter; where a law needs it, its hypothesis is that the
-- checksum is a 32-bit number. Numbers are unbounded, with the wrap-around and the saturation of the
-- source written out.
--
-- The loop over a segment runs on fuel, the length of the file plus one: each record takes at least
-- its length prefix, so the fuel is never used up (Segment/Scan). The other loops are recursions on
-- the lists that they run over.
--
-- Not modelled: timers, channels and tasks, of which one round is modelled and not the repetition;
-- interleavings of two appends; disk faults during Wal::open; the text of file names, the
-- current.seg link being the id that it points to; the memory of the sinks that take threshold and
-- audit events, whose failures the source ignores; reading and parsing /proc and cgroup files;
-- floating-point numbers, and with them the token bucket and the slowdown delay; conversion of OTLP
-- data, the query API, Parquet files and their caches, metrics, repositories, and the wiring of the
-- server.
pub mod Base
pub mod Wal
pub mod Policy
pub mod Ingest
pub mod Storage
pub mod Retention
pub mod Examples
