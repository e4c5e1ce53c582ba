-- ===== src/Wal/Replay.antt =====
-- replay.rs: `WalReplayer::replay`, before the listeners are bound. The sink and the writing of the
-- checkpoint file may fail: `sink_ok` and `save_ok` say when. Sizes stay below 2^64.
pub mod Segments
pub mod Reads
pub mod Sends
use zradar.Base.{
  ℕ, ◌+◌, Option, none, some, List, [], ◌∷◌, ◌++◌, length, Bool, true, false, ltb, leb, ◌==◌,
  if◌then◌else◌,
}
use zradar.Base.Bytes.{Bytes}
use zradar.Wal.Checkpoint.{Checkpoint, save, start_segment, flushed_offset}
use zradar.Wal.Dir.{Dir, put_file}
use zradar.Wal.Record.{WalRecord}
use zradar.Wal.Segment.{invalid_magic, unsupported_version, Opened, open_path, truncate_segment}
use zradar.Wal.Segment.Scan.{Scan, End, clean, torn_write, panicked, out_of_fuel, scan}
use zradar.Wal.Flusher.{skips, raise_max}

-- The locals of `replay`, the records that the sink has confirmed, and the directory.
pub record ReplayState : Type 0 where
  pub total_replayed : ℕ
  pub last_good_segment_id : ℕ
  pub last_good_offset : ℕ
  pub confirmed : List WalRecord
  pub dir : Dir

-- `batch`, `batch_bytes` and `max_offset_in_batch`.
pub record Batch : Type 0 where
  pub records : List WalRecord
  pub bytes : ℕ
  pub max_offset : Option ℕ

abbrev pub empty_batch : Batch
empty_batch = record { records = []; bytes = 0; max_offset = none }

abbrev pub is_empty : List WalRecord → Bool
is_empty [] = true
is_empty (r ∷ rs) = false

-- `batch.push(rec)`, with the rough size and the highest offset counted.
unfoldable pub push_record : WalRecord → Batch → Batch
unfolding raise_max
push_record rec b = record {
  records = b.records ++ rec ∷ [];
  bytes = b.bytes + (length rec.payload + 64);
  max_offset = raise_max b.max_offset rec.assigned_offset;
}

-- How a part of the loop ends: it goes on, the loop breaks, `?` or `return` gives an error, or
-- `deserialize` panics.
pub data Ended : Type 0 where
  go_on stop failed panic : Ended

-- `if let Some(max_off) = max_offset_in_batch`
abbrev pub mark_good : ℕ → Option ℕ → ReplayState → ReplayState
mark_good seg_id max_offset s = record s {
  last_good_segment_id = elim max_offset [ none ↦ s.last_good_segment_id | some max_off ↦ seg_id ];
  last_good_offset = elim max_offset [ none ↦ s.last_good_offset | some max_off ↦ max_off ];
}

-- The result of `replay`.
pub data Replayed : Type 0 where
  ok : ℕ → Replayed
  err : Replayed
  panic : Replayed

-- The body of a loop ran, and the rest follows unless it ended the function.
pub then_go {ℓ} : {A : Type ℓ} → A × Ended → (A → A × Ended) → A × Ended
then_go (a, go_on) rest = rest a
then_go (a, stop) rest = (a, stop)
then_go (a, failed) rest = (a, failed)
then_go (a, panic) rest = (a, panic)

module _ (sink_ok : List WalRecord → Bool) (replay_batch_max_bytes : ℕ) where
  -- `flush_records(&batch).await?`, and the counts.
  unfoldable pub send_batch : ℕ → Batch → ReplayState → ReplayState × Ended
  send_batch seg_id b s =
      if sink_ok b.records
      then (
        mark_good seg_id b.max_offset (record s {
          total_replayed = s.total_replayed + length b.records;
          confirmed = s.confirmed ++ b.records;
        }),
        go_on,
      )
      else (s, failed)

  -- The batch is sent once it is large enough, and begun again.
  send_full : ℕ → Batch → ReplayState → (ReplayState × Batch) × Ended
  unfolding send_batch
  send_full seg_id b s =
      let (s', ended) = send_batch seg_id b s in
      if leb replay_batch_max_bytes b.bytes then ((s', empty_batch), ended) else ((s, b), go_on)

  pub take_record :
      Option Checkpoint → ℕ → WalRecord → ReplayState × Batch → (ReplayState × Batch) × Ended
  unfolding send_full push_record skips
  take_record start seg_id rec (s, b) =
      if skips start seg_id rec then ((s, b), go_on) else send_full seg_id (push_record rec b) s

  -- The loop over the records that `next_record` gives.
  pub take_records :
      Option Checkpoint → ℕ → List WalRecord → ReplayState × Batch → (ReplayState × Batch) × Ended
  unfolding take_record then_go
  take_records start seg_id [] sb = (sb, go_on)
  take_records start seg_id (rec ∷ rs) sb =
      then_go (take_record start seg_id rec sb) (take_records start seg_id rs)

  -- What is left of the batch when the records of the segment are read.
  pub send_rest : ℕ → ReplayState × Batch → (ReplayState × Batch) × Ended
  unfolding send_batch
  send_rest seg_id (s, b) =
      let (s', ended) = send_batch seg_id b s in
      if is_empty b.records then ((s, b), go_on) else ((s', b), ended)

  -- How the loop over the records was left: a torn tail is cut off, and the segment ends there.
  unfoldable pub end_records :
      ℕ → Bytes → Scan → ReplayState × Batch → (ReplayState × Batch) × Ended
  end_records seg_id file read (s, b) = elim read.ended [
    | clean ↦ ((s, b), go_on)
    | torn_write e ↦
        ((record s { dir = put_file seg_id (truncate_segment read.position file) s.dir }, b), go_on)
    | panicked ↦ ((s, b), panic)
    | out_of_fuel ↦ ((s, b), panic)
  ]

  pub replay_read : Option Checkpoint → ℕ → Bytes → Scan → ReplayState → ReplayState × Ended
  unfolding take_records end_records send_rest then_go
  replay_read start seg_id file read s =
      let taken = take_records start seg_id read.records (s, empty_batch) in
      let (sb, ended) = then_go (then_go taken (end_records seg_id file read)) (send_rest seg_id) in
      (sb.0, ended)

  module _ (crc32 : Bytes → ℕ) where
    pub replay_opened : Option Checkpoint → ℕ → Bytes → Opened → ReplayState → ReplayState × Ended
    unfolding replay_read
    replay_opened start seg_id file (Opened.err invalid_magic) s = (s, failed)
    replay_opened start seg_id file (Opened.err (unsupported_version v)) s = (s, failed)
    replay_opened start seg_id file (Opened.err _) s = (s, stop)
    replay_opened start seg_id file (Opened.ok reader) s =
        replay_read start seg_id file (scan crc32 reader) s

    -- `for &seg_id in &segments`
    pub replay_segments : Option Checkpoint → Dir → ReplayState → ReplayState × Ended
    unfolding replay_opened then_go
    replay_segments start [] s = (s, go_on)
    replay_segments start ((seg_id, file) ∷ d) s =
        let body = replay_opened start seg_id file (open_path file) s in
        let skipped = replay_segments start d s in
        let ran = then_go body (replay_segments start d) in
        if ltb seg_id (start_segment start) then skipped else ran

-- The checkpoint that the locals stand for.
abbrev pub last_good : Option Checkpoint → ReplayState → Option Checkpoint
last_good old s =
    if ltb 0 s.total_replayed
    then some (record {
      last_flushed_segment_id = s.last_good_segment_id;
      last_flushed_offset = s.last_good_offset;
      wal_format_version = 1;
    })
    else old

-- `already_flushed_offset.unwrap_or(0)`
abbrev last_offset : Option Checkpoint → ℕ
last_offset none = 0
last_offset (some cp) = cp.last_flushed_offset

unfoldable pub replay_start : Option Checkpoint → Dir → List WalRecord → ReplayState
replay_start checkpoint dir confirmed = record {
  total_replayed = 0;
  last_good_segment_id = start_segment checkpoint;
  last_good_offset = last_offset checkpoint;
  confirmed = confirmed;
  dir = dir;
}

-- What `replay` leaves: its result, the checkpoint file, the confirmed records and the directory.
pub record ReplayOutcome : Type 0 where
  pub result : Replayed
  pub checkpoint : Option Checkpoint
  pub confirmed : List WalRecord
  pub dir : Dir

module _ (sink_ok : List WalRecord → Bool) (save_ok : Checkpoint → Bool)
    (replay_batch_max_bytes : ℕ) (crc32 : Bytes → ℕ) where
  -- The checkpoint is saved if something was replayed.
  unfoldable pub save_replayed : Option Checkpoint → ReplayState → Replayed × Option Checkpoint
  unfolding save
  save_replayed old s =
      let cp : Checkpoint = record {
        last_flushed_segment_id = s.last_good_segment_id;
        last_flushed_offset = s.last_good_offset;
        wal_format_version = 1;
      } in
      if ltb 0 s.total_replayed
      then (
        if save_ok cp then Replayed.ok s.total_replayed else Replayed.err,
        save (save_ok cp) cp old,
      )
      else (Replayed.ok s.total_replayed, old)

  unfoldable pub finish_replay :
      Option Checkpoint → ReplayState × Ended → Replayed × Option Checkpoint
  unfolding save_replayed
  finish_replay old (s, go_on) = save_replayed old s
  finish_replay old (s, stop) = save_replayed old s
  finish_replay old (s, failed) = (Replayed.err, old)
  finish_replay old (s, panic) = (Replayed.panic, old)

  unfoldable pub replay : Option Checkpoint → Dir → List WalRecord → ReplayOutcome
  unfolding finish_replay replay_start
  replay checkpoint dir confirmed =
      let ran =
        replay_segments sink_ok replay_batch_max_bytes crc32 checkpoint dir
          (replay_start checkpoint dir confirmed) in
      let (result, checkpoint') = finish_replay checkpoint ran in
      record {
        result = result;
        checkpoint = checkpoint';
        confirmed = ran.0.confirmed;
        dir = ran.0.dir;
      }
