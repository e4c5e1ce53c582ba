-- ===== src/Examples/Reopening.antt =====
-- A log that is opened again, at concrete values.
use zradar.Base.{◌+◌, ◌≡◌, some, [], ◌∷◌, ◌++◌, take, arith}
use zradar.Base.Bytes.{to_be}
use zradar.Wal.Record.{serialize, crc_data, body_len, to_u8}
use zradar.Wal.Segment.{header}
use zradar.Wal.Segment.Frames.{frames}
use zradar.Wal.Log.{Wal}
use zradar.Wal.Log.View.{all_records, files, contents, IsLog}
use zradar.Wal.Open.{WalConfig, max_offset_from, Reopened, open_wal}
use zradar.Wal.Open.Recovers.{OffsetsBelow, open_wal-recovers}
use zradar.Examples.Data.{checksum, checksum_u32, log_record, log_record-IsWire}
use zradar.Examples.Logs.{soon, one_segment, one_segment-IsSegment}

abbrev config : WalConfig
config = record { segment_max_bytes = 50; wal_min_free_bytes = 0; disk_check_interval = 10 }

-- Ten bytes of the next record have reached the file.
open_wal-recovers_example :
    let torn = take 10 (serialize checksum log_record) in
    let file = (header 0 ++ frames checksum one_segment.records) ++ torn in
    (w : Wal) × (open_wal checksum soon config (some 0) (files checksum [] ++ (0, file) ∷ [])
      ≡ Reopened.ok w)
    × IsLog checksum w
    × (contents checksum w.dir ≡ all_records [] ++ one_segment.records)
    × OffsetsBelow w.offset_counter one_segment.records
    × (w.offset_counter ≡ max_offset_from 0 one_segment.records + 1)
open_wal-recovers_example =
    open_wal-recovers checksum checksum_u32 soon config (some 0) [] one_segment log_record 10 tt
      one_segment-IsSegment (unfold files in tt) (omega arith)
      (unfold max_offset_from in omega arith) log_record-IsWire
      (unfold serialize crc_data body_len to_u8 to_be in omega arith)
