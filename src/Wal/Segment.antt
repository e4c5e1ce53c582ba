-- ===== src/Wal/Segment.antt =====
-- segment.rs: one segment file, its header, and the reader that stops at a torn write.
-- A file is the list of its bytes. Sizes and positions stay below 2^64, so they do not wrap.
pub mod Scan
pub mod Frames
pub mod Zeros
use zradar.Base.{
  ℕ, zero, suc, ◌+◌, Option, none, some, List, [], ◌∷◌, ◌++◌, length, take, drop, ltb, leb, ◌==◌,
  if◌then◌else◌, Bool, not,
}
use zradar.Base.Bytes.{Bytes, to_be, from_be, bytes_eq}
use zradar.Wal.Record
use zradar.Wal.Record.{WalRecord, RecordReadError, Outcome, deserialize}

-- b"ZWAL"
abbrev pub segment_magic : Bytes
segment_magic = b'Z' ∷ b'W' ∷ b'A' ∷ b'L' ∷ []

abbrev pub segment_version : ℕ
segment_version = 1

abbrev pub segment_header_size : ℕ
segment_header_size = 13

pub data SegmentError : Type 0 where
  invalid_magic : SegmentError
  unsupported_version : ℕ → SegmentError
  io : SegmentError
  record_error : RecordReadError → SegmentError

-- What `SegmentWriter::create` writes.
unfoldable pub header : ℕ → Bytes
header segment_id = segment_magic ++ segment_version ∷ to_be 8 segment_id

pub record SegmentReader : Type 0 where
  pub input : Bytes
  pub segment_id : ℕ
  pub pos : ℕ

pub data Opened : Type 0 where
  ok : SegmentReader → Opened
  err : SegmentError → Opened

-- `SegmentReader::open_path`, on the file's contents.
unfoldable pub open_path : Bytes → Opened
open_path input =
    if ltb (length input) segment_header_size
    then err io
    else if not (bytes_eq (take 4 input) segment_magic)
    then err invalid_magic
    else let version = from_be 0 (take 1 (drop 4 input)) in
      if not (version == segment_version)
      then err (unsupported_version version)
      else ok (record {
        input = input;
        segment_id = from_be 0 (take 8 (drop 5 input));
        pos = segment_header_size;
      })

-- `Ok(Some(record))` with the reader moved on, `Ok(None)`, `Err`, or the panic of `deserialize`.
pub data Next : Type 0 where
  read : WalRecord → SegmentReader → Next
  eof : Next
  torn : RecordReadError → Next
  panic : Next

advance : SegmentReader → Outcome (WalRecord × ℕ) → Next
advance r (Outcome.ok (rec, consumed)) = read rec (record r { pos = r.pos + consumed })
advance r (Outcome.err e) = torn e
advance r Outcome.panic = panic

-- `set_len(at_offset)` of a file that is at least that long.
unfoldable pub truncate_segment : ℕ → Bytes → Bytes
truncate_segment at_offset file = take at_offset file

module _ (crc32 : Bytes → ℕ) where
  unfoldable pub next_record : SegmentReader → Next
  unfolding advance
  next_record r =
      if leb (length r.input) r.pos
      then eof
      else let remaining = drop r.pos r.input in
        if length remaining == 0 then eof else advance r (deserialize crc32 remaining r.pos)
