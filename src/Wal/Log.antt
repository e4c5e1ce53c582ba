-- ===== src/Wal/Log.antt =====
-- lib.rs: the open WAL and `Wal::append`. Every call that touches the disk may fail: what happens
-- is an argument, `Faults`.
pub mod View
pub mod Append
pub mod Faulty
use zradar.Base.{
  ℕ, zero, suc, ◌+◌, ◌%◌, ◌^◌, Option, none, some, List, [], ◌∷◌, ◌++◌, length, take, ltb, Bool,
  if◌then◌else◌,
}
use zradar.Base.Bytes.{Bytes}
use zradar.Wal.AppendError.{AppendError, io, IoKind}
use zradar.Wal.Dir.{Dir, put_file, append_file}
use zradar.Wal.Disk.{DiskSpaceGuard, Probe, admit}
use zradar.Wal.GroupCommit.{FsyncQueue, register}
use zradar.Wal.Record.{WalRecord, serialize}
use zradar.Wal.Segment.{header, segment_header_size}

-- `SegmentWriter`: the file is that of its id in the directory.
pub record SegmentWriter : Type 0 where
  pub segment_id : ℕ
  pub current_size : ℕ

pub record Wal : Type 0 where
  pub dir : Dir
  pub current : Option ℕ  -- the target of the `current.seg` link
  pub segment_max_bytes : ℕ
  pub writer : SegmentWriter
  pub fsync_queue : FsyncQueue
  pub offset_counter : ℕ
  pub disk_guard : DiskSpaceGuard

-- How `SegmentWriter::create` ends: the file is not opened, or its header is cut short.
pub data Create : Type 0 where
  created : Create
  not_opened : IoKind → Create
  short_header : (bytes : ℕ) → IoKind → Create

pub record Faults : Type 0 where
  pub fsync : Option IoKind
  pub create : Create
  pub symlink : Option IoKind
  pub write : Option (ℕ × IoKind)  -- the bytes that reached the file before the error

abbrev pub no_faults : Faults
no_faults = record { fsync = none; create = created; symlink = none; write = none }

-- `update_current_symlink`: the old link is removed first.
pub link_current : Option IoKind → ℕ → Wal → Wal × Option IoKind
link_current none id w = (
  record w {
    current = some id;
    writer = record { segment_id = id; current_size = segment_header_size };
  },
  none,
)
link_current (some k) id w = (record w { current = none }, some k)

unfoldable pub create_segment : Create → Option IoKind → ℕ → Wal → Wal × Option IoKind
unfolding link_current
create_segment created link id w =
    link_current link id (record w { dir = put_file id (header id) w.dir })
create_segment (not_opened k) link id w = (w, some k)
create_segment (short_header n k) link id w =
    (record w { dir = put_file id (take n (header id)) w.dir }, some k)

-- Seal the segment and go on in a new one; on an error the writer stays.
unfoldable pub seal : Option IoKind → Faults → Wal → Wal × Option IoKind
unfolding create_segment
seal (some k) f w = (w, some k)
seal none f w = create_segment f.create f.symlink (w.writer.segment_id + 1) w

pub data Appended : Type 0 where
  ok : (ticket : ℕ) → Appended
  err : AppendError → Appended

-- `writer.append`, then `register`. A short write leaves its bytes in the file, and the writer does
-- not count them.
pub write_bytes : Option (ℕ × IoKind) → Bytes → Wal → Wal × Appended
write_bytes (some (n, k)) bytes w =
    (record w { dir = append_file w.writer.segment_id (take n bytes) w.dir }, err (io k))
write_bytes none bytes w =
    let (q, ticket) = register w.fsync_queue in
    (
      record w {
        dir = append_file w.writer.segment_id bytes w.dir;
        writer = record w.writer { current_size = w.writer.current_size + length bytes };
        fsync_queue = q;
      },
      ok ticket,
    )

pub write_unless : Option IoKind → Faults → Bytes → Wal → Wal × Appended
unfolding write_bytes
write_unless (some k) f bytes w = (w, err (io k))
write_unless none f bytes w = write_bytes f.write bytes w

-- The record as it is written, with its offset.
unfoldable pub stamp : ℕ → WalRecord → WalRecord
stamp offset rec = record rec { assigned_offset = offset }

-- `writer.size() + serialized.len() > segment_max_bytes`
unfoldable pub rotates : Bytes → Wal → Bool
rotates bytes w = ltb w.segment_max_bytes (w.writer.current_size + length bytes)

module _ (crc32 : Bytes → ℕ) where
  -- From `fetch_add` on.
  pub append_admitted : Faults → WalRecord → Wal → Wal × Appended
  unfolding write_unless seal
  append_admitted f rec w =
      let bytes = serialize crc32 (stamp w.offset_counter rec) in
      let w1 : Wal = record w { offset_counter = (w.offset_counter + 1) % 2 ^ 64 } in
      let (w2, failed) = if rotates bytes w then seal f.fsync f w1 else (w1, none) in
      write_unless failed f bytes w2

  pub append_unless : Option AppendError → Faults → WalRecord → Wal → Wal × Appended
  append_unless (some e) f rec w = (w, err e)
  append_unless none f rec w = append_admitted f rec w

  unfoldable pub append : Probe → Faults → WalRecord → Wal → Wal × Appended
  unfolding append_unless append_admitted
  append p f rec w =
      let (guard, refused) = admit p w.disk_guard in
      append_unless refused f rec (record w { disk_guard = guard })
