-- ===== src/Wal/Record.antt =====
-- record.rs: the on-disk record and its two directions, `serialize` and `deserialize`.
-- `crc32fast::hash` is another package's: it is the parameter `crc32`.
pub mod Bounds
pub mod Roundtrip
use zradar.Base.{
  ℕ, zero, suc, ◌+◌, ◌^◌, ◌<◌, ◌≡◌, Option, none, some, Bool, true, false, not, List, [], ◌∷◌, ◌++◌,
  length, take, drop, ltb, ◌==◌, if◌then◌else◌,
}
use zradar.Base.Bytes.{Bytes, to_be, from_be}

-- 4 + 4 + 1 + 16 + 8 + 8
abbrev pub record_header_size : ℕ
record_header_size = 41

pub data SignalType : Type 0 where
  trace metric log score : SignalType

-- `signal as u8`
unfoldable pub to_u8 : SignalType → ℕ
to_u8 trace = 0
to_u8 metric = 1
to_u8 log = 2
to_u8 score = 3

unfoldable pub from_u8 : ℕ → Option SignalType
from_u8 v =
    if v == 0
    then some trace
    else if v == 1
    then some metric
    else if v == 2
    then some log
    else if v == 3
    then some score
    else none

pub record WalRecord : Type 0 where
  pub signal_type : SignalType
  pub workspace_id : Bytes  -- the 16 bytes of the UUID
  pub arrival_timestamp_ns : ℕ  -- the bit pattern of the i64
  pub assigned_offset : ℕ  -- u64
  pub payload : Bytes

pub data RecordReadError : Type 0 where
  torn_write_incomplete : (offset : ℕ) → RecordReadError
  torn_write_crc_mismatch : (offset expected actual : ℕ) → RecordReadError
  torn_write_truncated : (offset need have : ℕ) → RecordReadError
  invalid_signal_type : (offset value : ℕ) → RecordReadError

-- What a call of `deserialize` does: it returns `Ok` or `Err`, or an index or a `Buf` getter out of
-- range panics.
pub data Outcome {ℓ} (A : Type ℓ) : Type ℓ where
  ok : A → Outcome A
  err : RecordReadError → Outcome A
  panic : Outcome A

-- The part of a record that the CRC covers.
unfoldable pub crc_data : WalRecord → Bytes
crc_data r =
    to_u8 r.signal_type
    ∷ (r.workspace_id
        ++ (to_be 8 r.arrival_timestamp_ns ++ (to_be 8 r.assigned_offset ++ r.payload)))

-- `body_len`: the CRC, the header's fields and the payload.
unfoldable pub body_len : WalRecord → ℕ
body_len r = 4 + 1 + 16 + 8 + 8 + length r.payload

-- `&body[4..]` after the CRC is checked: `get_u8`, `from_u8`, `cursor[..16]`, `get_i64`, `get_u64`.
pub parse_fields : ℕ → Bytes → Outcome WalRecord
parse_fields offset [] = panic
parse_fields offset (signal_byte ∷ cursor) = elim (from_u8 signal_byte) [
  | none ↦ err (invalid_signal_type offset signal_byte)
  | some signal ↦
      if ltb (length cursor) (16 + 8 + 8)
      then panic
      else ok (record {
        signal_type = signal;
        workspace_id = take 16 cursor;
        arrival_timestamp_ns = from_be 0 (take 8 (drop 16 cursor));
        assigned_offset = from_be 0 (take 8 (drop 8 (drop 16 cursor)));
        payload = drop 8 (drop 8 (drop 16 cursor));
      })
]

-- `Ok((record, total_consumed))`
pub consumed : ℕ → Outcome WalRecord → Outcome (WalRecord × ℕ)
consumed n (ok r) = ok (r, n)
consumed n (err e) = err e
consumed n panic = panic

module _ (crc32 : Bytes → ℕ) where
  unfoldable pub serialize : WalRecord → Bytes
  unfolding crc_data body_len
  serialize r = to_be 4 (body_len r) ++ (to_be 4 (crc32 (crc_data r)) ++ crc_data r)

  -- From the check of the length prefix on. `body[0]` of a body of under four bytes panics.
  pub check_body : ℕ → ℕ → Bytes → Outcome (WalRecord × ℕ)
  unfolding consumed parse_fields
  check_body offset len body =
      let stored_crc = from_be 0 (take 4 body) in
      let actual_crc = crc32 (drop 4 body) in
      if ltb len 4
      then panic
      else if not (stored_crc == actual_crc)
      then err (torn_write_crc_mismatch offset stored_crc actual_crc)
      else consumed (4 + len) (parse_fields offset (drop 4 body))

  unfoldable pub deserialize : Bytes → ℕ → Outcome (WalRecord × ℕ)
  deserialize input offset =
      let len = from_be 0 (take 4 input) in
      if ltb (length input) 4
      then err (torn_write_incomplete offset)
      else if ltb (length input) (4 + len)
      then err (torn_write_truncated offset (4 + len) (length input))
      else check_body offset len (take len (drop 4 input))

-- The ranges of the fields' machine types, and a payload whose length fits the u32 prefix.
pub record IsWire (r : WalRecord) : Type 0 where
  pub workspace_16 : length r.workspace_id ≡ 16
  pub timestamp_64 : r.arrival_timestamp_ns < 256 ^ 8
  pub offset_64 : r.assigned_offset < 256 ^ 8
  pub payload_32 : 37 + length r.payload < 256 ^ 4
