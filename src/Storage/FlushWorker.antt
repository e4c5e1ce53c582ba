-- ===== src/Storage/FlushWorker.antt =====
-- flush_worker.rs: drained slots go to the Parquet file writer, which may fail: `write_ok` says when.
-- Its timer and its notifications are the steps of a run, in any order, with the pushes between them.
pub mod Accounts
use zradar.Base.{ℕ, List, [], ◌∷◌, ◌++◌, Bool, true, false, ◌==◌, if◌then◌else◌}
use zradar.Wal.Record.{SignalType, trace, metric, log, score}
use zradar.Storage.WriteBuffer.{
  BufferKey, SignalBatch, spans, metrics, logs, scores, BufferSlot, WriteBuffer, batch_len, push,
}
use zradar.Storage.WriteBuffer.Drain.{drain_eligible, drain_all}

-- The calls of the file writer that succeeded, in order, and the data that the log says is dropped.
pub record Written (Row : SignalType → Type 0) : Type 0 where
  pub files : List (BufferKey × SignalBatch Row)
  pub dropped : List (BufferKey × SignalBatch Row)

pub record FlushWorker (Row : SignalType → Type 0) : Type 0 where
  pub buffer : WriteBuffer Row
  pub written : Written Row

-- What happens to a worker: a push of an ingest path, a tick or a notification, and the shutdown.
pub data Step (Row : SignalType → Type 0) : Type 0 where
  pushes : (k : SignalType) → BufferKey → List (Row k) → (now : ℕ) → Step Row
  flushes : (flush_interval_secs now : ℕ) → Step Row
  shuts_down : Step Row

module _ {Row : SignalType → Type 0} (write_ok : BufferKey → SignalBatch Row → Bool) where
  -- `false` for the error of the writer. An empty batch is not written.
  unfoldable pub flush_one :
      BufferKey
      → SignalBatch Row
      → List (BufferKey × SignalBatch Row)
      → List (BufferKey × SignalBatch Row) × Bool
  unfolding batch_len
  flush_one key data_ files =
      if batch_len data_ == 0
      then (files, true)
      else if write_ok key data_
      then (files ++ (key, data_) ∷ [], true)
      else (files, false)

  unfoldable pub flush_slot : BufferKey → BufferSlot Row → Written Row → Written Row
  unfolding flush_one
  flush_slot key slot w =
      let (files, ok) = flush_one key slot.data_ w.files in
      record {
        files = files;
        dropped = if ok then w.dropped else w.dropped ++ (key, slot.data_) ∷ [];
      }

  unfoldable pub flush_slots : List (BufferKey × BufferSlot Row) → Written Row → Written Row
  unfolding flush_slot
  flush_slots [] w = w
  flush_slots ((key, slot) ∷ slots) w = flush_slots slots (flush_slot key slot w)

  unfoldable pub flush_eligible : ℕ → ℕ → FlushWorker Row → FlushWorker Row
  unfolding drain_eligible flush_slots
  flush_eligible flush_interval_secs now f =
      let (slots, b) = drain_eligible flush_interval_secs now f.buffer in
      record { buffer = b; written = flush_slots slots f.written }

  -- The branch of the shutdown signal.
  unfoldable pub flush_remaining : FlushWorker Row → FlushWorker Row
  unfolding drain_all flush_slots
  flush_remaining f =
      let (slots, b) = drain_all f.buffer in
      record { buffer = b; written = flush_slots slots f.written }

  unfoldable pub run_step : Step Row → FlushWorker Row → FlushWorker Row
  unfolding flush_eligible flush_remaining push
  run_step (pushes k key rows now) f = record f { buffer = push k key rows now f.buffer }
  run_step (flushes flush_interval_secs now) f = flush_eligible flush_interval_secs now f
  run_step shuts_down f = flush_remaining f

  unfoldable pub run : List (Step Row) → FlushWorker Row → FlushWorker Row
  unfolding run_step
  run [] f = f
  run (s ∷ ss) f = run ss (run_step s f)
