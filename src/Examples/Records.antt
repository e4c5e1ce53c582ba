-- ===== src/Examples/Records.antt =====
-- Records, envelopes and segments.
use zradar.Base.{
  replicate, ◌≡◌, ◌≢◌, ◌≤◌, some, List, [], ◌∷◌, ◌++◌, length, take, arith, if◌then◌else◌, ltb,
}
use zradar.Base.Bytes.{Bytes, to_be}
use zradar.Wal.Record.{
  ok, err, RecordReadError, torn_write_incomplete, torn_write_truncated, serialize, deserialize,
  crc_data, body_len, to_u8,
}
use zradar.Wal.Record.Roundtrip.{deserialize-serialize, deserialize-take}
use zradar.Wal.Batch
use zradar.Wal.Batch.{json_rows_v1, encode_json_rows, decode, encode_rows}
use zradar.Wal.Batch.Roundtrip.{IsErr, decode-encode_json_rows, decode-take-IsErr}
use zradar.Wal.Segment.{SegmentReader, header, truncate_segment, segment_header_size}
use zradar.Wal.Segment.Zeros.{scan-frames_zeros}
use zradar.Wal.Segment.Scan.{scan, panicked, torn_write, out_of_fuel, scan_ends}
use zradar.Wal.Segment.Frames.{frames, scan-frames_torn}
use zradar.Examples.Data.{
  checksum, checksum_u32, span_record, span_record-IsWire, log_record, log_record-IsWire,
}

deserialize-serialize_example :
    deserialize checksum (serialize checksum span_record ++ 1 ∷ 2 ∷ []) 13
    ≡ ok (span_record, length (serialize checksum span_record))
deserialize-serialize_example =
    deserialize-serialize checksum checksum_u32 span_record (1 ∷ 2 ∷ []) 13 span_record-IsWire

deserialize-take_example :
    deserialize checksum (take 20 (serialize checksum span_record)) 13
    ≡ err (
        if ltb 20 4
        then torn_write_incomplete 13
        else torn_write_truncated 13 (length (serialize checksum span_record)) 20)
unfolding serialize crc_data body_len to_u8 to_be
deserialize-take_example =
    deserialize-take checksum checksum_u32 span_record 20 13 span_record-IsWire (omega arith)

abbrev two_rows : List Bytes
two_rows = (b'1' ∷ []) ∷ (b'2' ∷ b'3' ∷ []) ∷ []

decode-encode_json_rows_example :
    decode (encode_json_rows two_rows)
    ≡ Batch.ok (some (record { encoding = json_rows_v1; rows = two_rows }))
decode-encode_json_rows_example = decode-encode_json_rows two_rows (omega arith) (omega arith)

decode-take-IsErr_example : IsErr (decode (take 15 (encode_json_rows two_rows)))
unfolding encode_json_rows to_be
decode-take-IsErr_example =
    decode-take-IsErr two_rows 15 (omega arith) (omega arith) (omega arith) (omega arith)

scan-frames_torn_example :
    let good = header 2 ++ frames checksum (span_record ∷ []) in
    let file = good ++ take 9 (serialize checksum log_record) in
    let s = scan checksum (record { input = file; segment_id = 2; pos = segment_header_size }) in
    (s.records ≡ span_record ∷ [])
    × ((e : RecordReadError) × (s.ended ≡ torn_write e))
    × (truncate_segment s.position file ≡ good)
unfolding serialize crc_data body_len to_u8 to_be
scan-frames_torn_example =
    scan-frames_torn checksum checksum_u32 2 (span_record ∷ []) log_record 9
      (span_record-IsWire, tt) log_record-IsWire (omega arith) (omega arith)

scan-frames_zeros_example :
    let good = header 2 ++ frames checksum (span_record ∷ []) in
    let file = good ++ replicate 6 0 in
    scan checksum (record { input = file; segment_id = 2; pos = segment_header_size })
    ≡ record { records = span_record ∷ []; ended = panicked; position = length good }
scan-frames_zeros_example =
    scan-frames_zeros checksum checksum_u32 2 (span_record ∷ []) 6 (span_record-IsWire, tt)
      (omega arith)

abbrev stray : SegmentReader
stray = record { input = 1 ∷ 2 ∷ 3 ∷ []; segment_id = 0; pos = 1 }

scan_ends_example :
    ((scan checksum stray).ended ≢ out_of_fuel)
    × (1 ≤ (scan checksum stray).position)
    × ((scan checksum stray).position ≤ 3)
scan_ends_example = scan_ends checksum stray (omega arith)
