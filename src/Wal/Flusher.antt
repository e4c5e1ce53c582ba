-- ===== src/Wal/Flusher.antt =====
-- flusher.rs: one pass of the flusher over the WAL directory.
-- The sink and the writing of the checkpoint file may fail: `sink_ok` and `save_ok` say when.
pub mod Pending
pub mod Pass
pub mod Complete
use zradar.Base.{
  ℕ, zero, suc, ◌+◌, ◌-◌, Option, none, some, List, [], ◌∷◌, ◌++◌, Bool, true, false, ◌&&◌, not,
  ltb, leb, ◌==◌, max, if◌then◌else◌,
}
use zradar.Base.Bytes.{Bytes}
use zradar.Wal.Checkpoint.{Checkpoint, save, start_segment, flushed_offset}
use zradar.Wal.Dir.{Dir}
use zradar.Wal.Record.{WalRecord}
use zradar.Wal.Segment.{Opened, open_path}
use zradar.Wal.Segment.Scan.{Scan, End, panicked, scan}

-- The record is at or below the checkpoint, in the checkpoint's segment.
unfoldable pub skips : Option Checkpoint → ℕ → WalRecord → Bool
skips none seg_id rec = false
skips (some cp) seg_id rec =
    leb rec.assigned_offset cp.last_flushed_offset && seg_id == cp.last_flushed_segment_id

-- The records of a segment that go into the batch, in order.
unfoldable pub batch_of : Option Checkpoint → ℕ → List WalRecord → List WalRecord
batch_of cp seg_id [] = []
batch_of cp seg_id (rec ∷ rs) =
    let rest = batch_of cp seg_id rs in if skips cp seg_id rec then rest else rec ∷ rest

-- `max_offset_in_batch.map_or(rec.assigned_offset, |m| m.max(rec.assigned_offset))`
unfoldable pub raise_max : Option ℕ → ℕ → Option ℕ
raise_max none n = some n
raise_max (some m) n = some (max m n)

unfoldable pub max_offset_in_batch : Option ℕ → List WalRecord → Option ℕ
unfolding raise_max
max_offset_in_batch m [] = m
max_offset_in_batch m (rec ∷ rs) = max_offset_in_batch (raise_max m rec.assigned_offset) rs

-- The checkpoint file, the records that the sink has confirmed, and the lag metric.
pub record FlushState : Type 0 where
  pub checkpoint : Option Checkpoint
  pub confirmed : List WalRecord
  pub lag_bytes : ℕ

-- How the body of the loop over the segments ends: with the next segment, by `break`, by `?`, or in
-- the panic of `deserialize`.
pub data Flow : Type 0 where
  continue stop failed panic : Flow

abbrev is_panicked : End → Bool
is_panicked panicked = true
is_panicked _ = false

-- The rest of the loop runs only if the body ended with the next segment.
pub then_next : FlushState × Flow → (FlushState → FlushState × Flow) → FlushState × Flow
then_next (s, continue) rest = rest s
then_next (s, stop) rest = (s, stop)
then_next (s, failed) rest = (s, failed)
then_next (s, panic) rest = (s, panic)

abbrev flushed_end : Option Checkpoint → ℕ
flushed_end none = 0
flushed_end (some cp) = cp.last_flushed_offset + 1

-- The lag is counted again only at the end of a pass that went through.
pub update_lag : ℕ → FlushState × Flow → FlushState × Flow
update_lag next_offset (s, continue) = (s, continue)
update_lag next_offset (s, stop) =
    (record s { lag_bytes = next_offset - flushed_end s.checkpoint }, stop)
update_lag next_offset (s, failed) = (s, failed)
update_lag next_offset (s, panic) = (s, panic)

module _ (crc32 : Bytes → ℕ) (sink_ok : List WalRecord → Bool) (save_ok : Checkpoint → Bool) where
  -- `flush_records`, then the checkpoint, then on to the next segment unless this is the active one.
  pub flush_batch : ℕ → ℕ → Option ℕ → List WalRecord → FlushState → FlushState × Flow
  unfolding save
  flush_batch active seg_id none batch s = (s, if seg_id == active then stop else continue)
  flush_batch active seg_id (some max_offset) batch s =
      let cp : Checkpoint = record {
        last_flushed_segment_id = seg_id;
        last_flushed_offset = max_offset;
        wal_format_version = 1;
      } in
      if not (sink_ok batch) then (s, failed) else (
        record s {
          checkpoint = save (save_ok cp) cp s.checkpoint;
          confirmed = s.confirmed ++ batch;
        },
        if not (save_ok cp) then failed else if seg_id == active then stop else continue,
      )

  pub flush_opened : Option Checkpoint → ℕ → ℕ → Opened → FlushState → FlushState × Flow
  unfolding flush_batch batch_of max_offset_in_batch
  flush_opened start active seg_id (Opened.err e) s = (s, stop)
  flush_opened start active seg_id (Opened.ok reader) s =
      let read = scan crc32 reader in
      let batch = batch_of start seg_id read.records in
      if is_panicked read.ended
      then (s, panic)
      else flush_batch active seg_id (max_offset_in_batch none batch) batch s

  -- `for &seg_id in &segments`; `start` is the checkpoint that the pass began with.
  pub flush_segments : Option Checkpoint → ℕ → Dir → FlushState → FlushState × Flow
  unfolding flush_opened then_next
  flush_segments start active [] s = (s, stop)
  flush_segments start active ((seg_id, file) ∷ d) s =
      let body = flush_opened start active seg_id (open_path file) s in
      let skipped = flush_segments start active d s in
      let ran = then_next body (flush_segments start active d) in
      if ltb seg_id (start_segment start) then skipped else ran

  unfoldable pub flush_once : Dir → ℕ → ℕ → FlushState → FlushState × Flow
  flush_once [] active next_offset s = (s, stop)
  flush_once (f ∷ d) active next_offset s =
      update_lag next_offset (flush_segments s.checkpoint active (f ∷ d) s)
