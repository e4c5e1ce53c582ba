-- ===== src/Storage/Sink.antt =====
-- builder.rs (crates/runtime/zradar-runtime/src): `TelemetryFlushSink`, which hands the WAL's records
-- to the telemetry writer. serde_json is another package's: `parse` gives the row that a text stands
-- for, if there is one.
pub mod Arrives
pub mod Inserts
use zradar.Base.{Option, none, some, List, [], ◌∷◌, ◌++◌, Bool, true, false, if◌then◌else◌, ℕ}
use zradar.Base.Bytes.{Bytes}
use zradar.Base.Integers.{ℤ}
use zradar.Wal.Batch.{BatchPayload, Result, decode}
use zradar.Wal.Record.{SignalType, trace, metric, log, score, WalRecord}
use zradar.Storage.WriteBuffer.{BufferKey, SignalBatch}
use zradar.Storage.Writer.{RowFields, TelemetryWriter, then_write, IngestPayload, insert_batch}

-- The four vectors that the rows are sorted into.
pub record Decoded (Row : SignalType → Type 0) : Type 0 where
  pub spans : List (Row trace)
  pub metrics : List (Row metric)
  pub logs : List (Row log)
  pub scores : List (Row score)

abbrev to_list : {A : Type 0} → Option A → List A
to_list none = []
to_list (some a) = a ∷ []

module _ {Row : SignalType → Type 0} (parse : (k : SignalType) → Bytes → Option (Row k)) where
  -- A text that does not parse is skipped.
  unfoldable pub push_one : SignalType → Bytes → Decoded Row → Decoded Row
  push_one trace row d = record d { spans = d.spans ++ to_list (parse trace row) }
  push_one metric row d = record d { metrics = d.metrics ++ to_list (parse metric row) }
  push_one log row d = record d { logs = d.logs ++ to_list (parse log row) }
  push_one score row d = record d { scores = d.scores ++ to_list (parse score row) }

  unfoldable pub push_all : SignalType → List Bytes → Decoded Row → Decoded Row
  unfolding push_one
  push_all k [] d = d
  push_all k (row ∷ rows) d = push_all k rows (push_one k row d)

  -- An envelope of rows, a payload of one row, or a malformed envelope, which is skipped.
  unfoldable pub take_payload :
      SignalType → Bytes → Result (Option BatchPayload) → Decoded Row → Decoded Row
  unfolding push_all
  take_payload k payload (Result.ok (some batch)) d = push_all k batch.rows d
  take_payload k payload (Result.ok none) d = push_one k payload d
  take_payload k payload (Result.err e) d = d

  unfoldable pub decode_records : List WalRecord → Decoded Row → Decoded Row
  unfolding take_payload
  decode_records [] d = d
  decode_records (rec ∷ recs) d =
      decode_records recs (take_payload rec.signal_type rec.payload (decode rec.payload) d)

  module _ (format_hour : ℤ → Bytes) (fields : (k : SignalType) → RowFields (Row k))
      (write_ok : BufferKey → SignalBatch Row → Bool) (now : ℕ) where
    -- `if !spans.is_empty() { self.writer.insert_batch(...).await?; }`
    unfoldable pub insert_some :
        {A : Type 0}
        → List A
        → (List A → IngestPayload Row)
        → TelemetryWriter Row
        → TelemetryWriter Row × Bool
    unfolding insert_batch
    insert_some [] payload w = (w, true)
    insert_some (r ∷ rs) payload w =
        insert_batch format_hour fields write_ok now (payload (r ∷ rs)) w

    unfoldable pub insert_decoded : Decoded Row → TelemetryWriter Row → TelemetryWriter Row × Bool
    unfolding insert_some
    insert_decoded d w =
        then_write
          (then_write
            (then_write (insert_some d.spans IngestPayload.spans w)
              (insert_some d.metrics IngestPayload.metrics))
            (insert_some d.logs IngestPayload.logs))
          (insert_some d.scores IngestPayload.scores)

    unfoldable pub flush_records : List WalRecord → TelemetryWriter Row → TelemetryWriter Row × Bool
    unfolding insert_decoded decode_records
    flush_records recs w =
        insert_decoded
          (decode_records recs (record { spans = []; metrics = []; logs = []; scores = [] })) w
