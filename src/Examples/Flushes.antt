-- ===== src/Examples/Flushes.antt =====
-- A flush of three records of one workspace into an empty write buffer.
use zradar.Base.{◌≡◌, refl, Option, none, some, List, [], ◌∷◌, arith, true, if◌then◌else◌}
use zradar.Base.Bytes.{Bytes, bytes_eq}
use zradar.Wal.Batch.{decode, encode_json_rows}
use zradar.Wal.Record.{SignalType, trace, metric, log, score, WalRecord}
use zradar.Wal.Batch.Roundtrip.{decode-encode_json_rows}
use zradar.Storage.WriteBuffer.{WriteBuffer}
use zradar.Storage.Writer.Groups.{AllFromEpoch}
use zradar.Storage.Sink.{flush_records}
use zradar.Storage.Sink.Arrives.{decoded_rows}
use zradar.Storage.Sink.Inserts.{Arrived, flush_records-Arrived}
use zradar.Examples.Buffers.{row_fields, Rows, format_hours, ours, theirs, empty_buffer}

-- One byte stands for a row, and any other text does not parse.
abbrev parse : (k : SignalType) → Bytes → Option (Rows k)
parse k text =
    if bytes_eq text (1 ∷ [])
    then some ours
    else if bytes_eq text (2 ∷ [])
    then some theirs
    else none

abbrev record_of : SignalType → Bytes → WalRecord
record_of k payload = record {
  signal_type = k;
  workspace_id = b'a' ∷ [];
  arrival_timestamp_ns = 1_700_000_000;
  assigned_offset = 3;
  payload = payload;
}

abbrev texts : List Bytes
texts = (1 ∷ []) ∷ (9 ∷ []) ∷ (2 ∷ []) ∷ []

-- An envelope of two spans and a text that is none, a payload of one log, and one that is none.
abbrev recs : List WalRecord
recs =
    record_of trace (encode_json_rows texts) ∷ record_of log (2 ∷ []) ∷ record_of log (7 ∷ []) ∷ []

decoded_trace : decoded_rows {Row = Rows} parse trace recs ≡ ours ∷ theirs ∷ []
unfolding decoded_rows bytes_eq
decoded_trace = rw (decode-encode_json_rows texts (omega arith) (omega arith)) refl

decoded_log : decoded_rows {Row = Rows} parse log recs ≡ theirs ∷ []
unfolding decoded_rows decode bytes_eq
decoded_log = refl

decoded_metric : decoded_rows {Row = Rows} parse metric recs ≡ []
unfolding decoded_rows decode bytes_eq
decoded_metric = refl

decoded_score : decoded_rows {Row = Rows} parse score recs ≡ []
unfolding decoded_rows decode bytes_eq
decoded_score = refl

recs-AllFromEpoch :
    (k : SignalType) → AllFromEpoch format_hours row_fields (decoded_rows {Row = Rows} parse k recs)
recs-AllFromEpoch trace =
    rw decoded_trace ((7_200_000_000_000, refl), ((7_200_000_000_001, refl), tt))
recs-AllFromEpoch metric = rw decoded_metric tt
recs-AllFromEpoch log = rw decoded_log ((7_200_000_000_001, refl), tt)
recs-AllFromEpoch score = rw decoded_score tt

flush_records-Arrived_example :
    (b' : WriteBuffer Rows) × (flush_records parse format_hours
        (λ k. row_fields)
        (λ key b. true)
        5
        recs
        (record { buffer = some empty_buffer; files = [] })
      ≡ (record { buffer = some b'; files = [] }, true))
    × Arrived parse format_hours
        (λ k. row_fields)
        (λ key b. true)
        5
        empty_buffer
        b'
        (λ k. decoded_rows parse k recs)
flush_records-Arrived_example =
    flush_records-Arrived parse format_hours (λ k. row_fields) (λ key b. true) 5 recs empty_buffer
      [] tt tt recs-AllFromEpoch
