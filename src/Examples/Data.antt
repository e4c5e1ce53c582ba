-- ===== src/Examples/Data.antt =====
-- The inputs that the examples share.
use zradar.Base.{ℕ, ◌%◌, ◌^◌, ◌<◌, [], ◌∷◌, replicate, arith}
use zradar.Base.Bytes.{Bytes, from_be}
use zradar.Wal.Record.{WalRecord, IsWire, trace, log}

-- A checksum that stands in for CRC-32.
abbrev pub checksum : Bytes → ℕ
checksum b = from_be 7 b % 2 ^ 32

pub checksum_u32 : (b : Bytes) → checksum b < 256 ^ 4
checksum_u32 b = omega arith

abbrev pub workspace : Bytes
workspace = replicate 16 9

abbrev pub span_record : WalRecord
span_record = record {
  signal_type = trace;
  workspace_id = workspace;
  arrival_timestamp_ns = 1_700_000_000;
  assigned_offset = 3;
  payload = b'{' ∷ b'}' ∷ [];
}

pub span_record-IsWire : IsWire span_record
span_record-IsWire = omega arith

abbrev pub log_record : WalRecord
log_record = record {
  signal_type = log;
  workspace_id = workspace;
  arrival_timestamp_ns = 1_700_000_001;
  assigned_offset = 4;
  payload = b'7' ∷ [];
}

pub log_record-IsWire : IsWire log_record
log_record-IsWire = omega arith
