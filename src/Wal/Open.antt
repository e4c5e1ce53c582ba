-- ===== src/Wal/Open.antt =====
-- lib.rs: `Wal::open`, on a disk whose calls succeed. The fsync task that it spawns is
-- Wal/GroupCommit.
pub mod Recovers
use zradar.Base.{
  ℕ, ◌+◌, ◌%◌, ◌^◌, Option, none, some, List, [], ◌∷◌, length, get_last?, max, ltb, leb, Bool, true,
  false, if◌then◌else◌,
}
use zradar.Base.Bytes.{Bytes}
use zradar.Wal.Record.{
  WalRecord, RecordReadError, torn_write_incomplete, torn_write_crc_mismatch, torn_write_truncated,
  invalid_signal_type,
}
use zradar.Wal.Segment.{SegmentError, record_error, Opened, open_path, truncate_segment}
use zradar.Wal.Segment.Scan.{Scan, End, clean, torn_write, panicked, out_of_fuel, scan}
use zradar.Wal.Dir.{Dir, put_file}
use zradar.Wal.Disk.{DiskSpaceGuard, Probe, enabled, refresh}
use zradar.Wal.Disk as Disk
use zradar.Wal.GroupCommit as GroupCommit
use zradar.Wal.Log.{Wal, SegmentWriter, created, create_segment}

pub record WalConfig : Type 0 where
  pub segment_max_bytes : ℕ
  pub wal_min_free_bytes : ℕ
  pub disk_check_interval : ℕ

-- `max_offset` after the records of the last segment.
unfoldable pub max_offset_from : ℕ → List WalRecord → ℕ
max_offset_from m [] = m
max_offset_from m (rec ∷ rs) = max_offset_from (max m rec.assigned_offset) rs

-- The last segment after the scan: the highest offset and the file, cut behind its whole records; or
-- the error or the panic that ends `open`.
pub data Recovered : Type 0 where
  ok : (max_offset : ℕ) → Bytes → Recovered
  err : SegmentError → Recovered
  panic : Recovered

-- The three errors that `open` repairs.
unfoldable pub is_torn_write : RecordReadError → Bool
is_torn_write (torn_write_incomplete _) = true
is_torn_write (torn_write_crc_mismatch _ _ _) = true
is_torn_write (torn_write_truncated _ _ _) = true
is_torn_write (invalid_signal_type _ _) = false

unfoldable pub recover_torn : Bytes → ℕ → ℕ → RecordReadError → Recovered
unfolding is_torn_write
recover_torn file max_offset trunc_point e =
    if is_torn_write e
    then ok max_offset (truncate_segment trunc_point file)
    else err (record_error e)

unfoldable pub recover_end : Bytes → Scan → Recovered
unfolding recover_torn
recover_end file s = elim s.ended [
  | clean ↦ ok (max_offset_from 0 s.records) file
  | torn_write e ↦ recover_torn file (max_offset_from 0 s.records) s.position e
  | panicked ↦ panic
  | out_of_fuel ↦ panic
]

pub data Reopened : Type 0 where
  ok : Wal → Reopened
  err : SegmentError → Reopened
  panic : Reopened

module _ (crc32 : Bytes → ℕ) where
  unfoldable pub recover_opened : Bytes → Opened → Recovered
  unfolding recover_end
  recover_opened file (Opened.ok reader) = recover_end file (scan crc32 reader)
  recover_opened file (Opened.err e) = Recovered.err e

  unfoldable pub recover_segment : Bytes → Recovered
  unfolding recover_opened
  recover_segment file = recover_opened file (open_path file)

  unfoldable pub open_guard : Probe → WalConfig → DiskSpaceGuard
  open_guard p config =
      let guard = Disk.new config.wal_min_free_bytes config.disk_check_interval in
      if enabled guard then refresh p guard else guard

  -- The parts that do not come from the segments; the writer is set by what follows.
  unfoldable pub opened_on : Probe → WalConfig → Option ℕ → Dir → SegmentWriter → ℕ → Wal
  unfolding open_guard
  opened_on p config current dir writer next_offset = record {
    dir = dir;
    current = current;
    segment_max_bytes = config.segment_max_bytes;
    writer = writer;
    fsync_queue = GroupCommit.new;
    offset_counter = next_offset;
    disk_guard = open_guard p config;
  }

  -- A last segment at or over the maximum is sealed, else it is opened for appending at its end.
  unfoldable pub open_last : Probe → WalConfig → Option ℕ → Dir → ℕ → Recovered → Reopened
  unfolding opened_on
  open_last p config current dir last_id (Recovered.ok max_offset file) =
      let w =
        opened_on p config current (put_file last_id file dir)
          (record { segment_id = last_id; current_size = length file })
          ((max_offset + 1) % 2 ^ 64) in
      ok (
        if leb config.segment_max_bytes (length file)
        then (create_segment created none (last_id + 1) w).0
        else w)
  open_last p config current dir last_id (Recovered.err e) = err e
  open_last p config current dir last_id Recovered.panic = panic

  open_from : Probe → WalConfig → Option ℕ → Dir → Option (ℕ × Bytes) → Reopened
  unfolding open_last
  open_from p config current dir none =
      let w = opened_on p config current dir (record { segment_id = 0; current_size = 0 }) 0 in
      ok (create_segment created none 0 w).0
  open_from p config current dir (some (last_id, file)) =
      open_last p config current dir last_id (recover_segment file)

  unfoldable pub open_wal : Probe → WalConfig → Option ℕ → Dir → Reopened
  unfolding open_from
  open_wal p config current dir = open_from p config current dir (get_last? dir)
