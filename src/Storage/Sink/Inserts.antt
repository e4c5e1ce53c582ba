-- ===== src/Storage/Sink/Inserts.antt =====
-- builder.rs: the four batches that a flush inserts.
use zradar.Base.{ℕ, ◌≡◌, refl, ap, ◌∙◌, Option, some, List, [], ◌∷◌, ◌++◌, Bool, true}
use zradar.Base.Bytes.{Bytes}
use zradar.Base.Integers.{ℤ}
use zradar.Wal.Record.{SignalType, trace, metric, log, score, WalRecord}
use zradar.Storage.Keys.{PartitionKey}
use zradar.Storage.WriteBuffer.{BufferKey, SignalBatch, WriteBuffer, signal_tag}
use zradar.Storage.WriteBuffer.Rows.{collect, batches, Unique, WellTagged}
use zradar.Storage.Writer.{
  RowFields, TelemetryWriter, buffer_key, then_write, IngestPayload, insert_rows_owned,
  insert_batch,
}
use zradar.Storage.Writer.Groups.{rows_with, AllFromEpoch}
use zradar.Storage.Writer.Routes.{Routed, insert_rows-Routed}
use zradar.Storage.Sink.{Decoded, decode_records, insert_some, insert_decoded, flush_records}
use zradar.Storage.Sink.Arrives.{decoded_rows, vector, vector-decode_records}

module _ {Row : SignalType → Type 0} (parse : (k : SignalType) → Bytes → Option (Row k))
    (format_hour : ℤ → Bytes) (fields : (k : SignalType) → RowFields (Row k))
    (write_ok : BufferKey → SignalBatch Row → Bool) (now : ℕ) where
  payload_of : (k : SignalType) → List (Row k) → IngestPayload Row
  payload_of trace = IngestPayload.spans
  payload_of metric = IngestPayload.metrics
  payload_of log = IngestPayload.logs
  payload_of score = IngestPayload.scores

  insert_some-insert_rows :
      (k : SignalType) (rows : List (Row k)) (w : TelemetryWriter Row)
      → insert_some parse format_hour fields write_ok now rows (payload_of k) w
        ≡ insert_rows_owned format_hour fields write_ok now k rows w
  unfolding insert_some insert_batch insert_rows_owned payload_of
  insert_some-insert_rows k [] w = refl
  insert_some-insert_rows trace (r ∷ rs) w = refl
  insert_some-insert_rows metric (r ∷ rs) w = refl
  insert_some-insert_rows log (r ∷ rs) w = refl
  insert_some-insert_rows score (r ∷ rs) w = refl

  abbrev buffered : WriteBuffer Row → List (BufferKey × SignalBatch Row) → TelemetryWriter Row
  buffered b files = record { buffer = some b; files = files }

  insert_next :
      (k : SignalType) (rows : List (Row k)) (b : WriteBuffer Row)
      (files : List (BufferKey × SignalBatch Row)) (before : TelemetryWriter Row × Bool)
      → Unique b.slots
      → WellTagged b.slots
      → AllFromEpoch format_hour (fields k) rows
      → before ≡ (buffered b files, true)
      → (b' : WriteBuffer Row) × (then_write before
            (insert_some parse format_hour fields write_ok now rows (payload_of k))
          ≡ (buffered b' files, true))
        × Routed k b b' (λ q. rows_with format_hour (fields k) q rows)
  insert_next k rows b files before u t h e =
      let (b', ran, routed) =
        insert_rows-Routed format_hour fields write_ok now k rows b files u t h in
      (
        b',
        ap
              (λ (x : TelemetryWriter Row × Bool).
                then_write x
                  (insert_some parse format_hour fields write_ok now rows (payload_of k)))
              e
            ∙ insert_some-insert_rows k rows (buffered b files)
            ∙ ran,
        routed,
      )

  -- The new buffer holds, under each signal and key, the rows of that key behind those that it had.
  pub record Arrived (b b' : WriteBuffer Row) (rows : (k : SignalType) → List (Row k))
      : Type 0 where
    pub unique : Unique b'.slots
    pub tagged : WellTagged b'.slots
    pub added :
        (k : SignalType) (q : PartitionKey)
        → let slot = buffer_key q (signal_tag k) in
          collect k slot (batches b'.slots)
          ≡ collect k slot (batches b.slots) ++ rows_with format_hour (fields k) q (rows k)

  -- Each batch adds rows of its own signal only.
  added_of_four :
      (d : Decoded Row) (b b1 b2 b3 b4 : WriteBuffer Row)
      → Routed trace b b1 (λ q. rows_with format_hour (fields trace) q d.spans)
      → Routed metric b1 b2 (λ q. rows_with format_hour (fields metric) q d.metrics)
      → Routed log b2 b3 (λ q. rows_with format_hour (fields log) q d.logs)
      → Routed score b3 b4 (λ q. rows_with format_hour (fields score) q d.scores)
      → (k : SignalType) (q : PartitionKey)
      → let slot = buffer_key q (signal_tag k) in
        collect k slot (batches b4.slots)
        ≡ collect k slot (batches b.slots) ++ rows_with format_hour (fields k) q (vector parse k d)
  added_of_four d b b1 b2 b3 b4 at1 at2 at3 at4 trace q =
      let slot = buffer_key q (signal_tag trace) in
      at4.others trace slot (λ e. cc)
      ∙ at3.others trace slot (λ e. cc)
      ∙ at2.others trace slot (λ e. cc)
      ∙ at1.added q
  added_of_four d b b1 b2 b3 b4 at1 at2 at3 at4 metric q =
      let slot = buffer_key q (signal_tag metric) in
      at4.others metric slot (λ e. cc)
      ∙ at3.others metric slot (λ e. cc)
      ∙ at2.added q
      ∙ ap (λ l. l ++ rows_with format_hour (fields metric) q d.metrics)
          (at1.others metric slot (λ e. cc))
  added_of_four d b b1 b2 b3 b4 at1 at2 at3 at4 log q =
      let slot = buffer_key q (signal_tag log) in
      at4.others log slot (λ e. cc)
      ∙ at3.added q
      ∙ ap (λ l. l ++ rows_with format_hour (fields log) q d.logs)
          (at2.others log slot (λ e. cc) ∙ at1.others log slot (λ e. cc))
  added_of_four d b b1 b2 b3 b4 at1 at2 at3 at4 score q =
      let slot = buffer_key q (signal_tag score) in
      at4.added q
      ∙ ap (λ l. l ++ rows_with format_hour (fields score) q d.scores)
          (at3.others score slot (λ e. cc)
            ∙ at2.others score slot (λ e. cc)
            ∙ at1.others score slot (λ e. cc))

  vector-empty :
      (k : SignalType) (recs : List WalRecord)
      → vector parse k
          (decode_records parse recs (record { spans = []; metrics = []; logs = []; scores = [] }))
        ≡ decoded_rows parse k recs
  vector-empty trace recs = vector-decode_records parse trace recs _
  vector-empty metric recs = vector-decode_records parse metric recs _
  vector-empty log recs = vector-decode_records parse log recs _
  vector-empty score recs = vector-decode_records parse score recs _

  insert_decoded-Arrived :
      (d : Decoded Row) (b : WriteBuffer Row) (files : List (BufferKey × SignalBatch Row))
      → Unique b.slots
      → WellTagged b.slots
      → ((k : SignalType) → AllFromEpoch format_hour (fields k) (vector parse k d))
      → (b' : WriteBuffer Row) × (insert_decoded parse format_hour fields write_ok now d
            (buffered b files)
          ≡ (buffered b' files, true))
        × Arrived b b' (λ k. vector parse k d)
  unfolding insert_decoded payload_of
  insert_decoded-Arrived d b files u t h =
      let (b1, ran1, at1) =
        insert_next trace d.spans b files (buffered b files, true) u t (h trace) refl in
      let (b2, ran2, at2) =
        insert_next metric d.metrics b1 files _ at1.unique at1.tagged (h metric) ran1 in
      let (b3, ran3, at3) = insert_next log d.logs b2 files _ at2.unique at2.tagged (h log) ran2 in
      let (b4, ran4, at4) =
        insert_next score d.scores b3 files _ at3.unique at3.tagged (h score) ran3 in
      (
        b4,
        ran4,
        record {
          unique = at4.unique;
          tagged = at4.tagged;
          added = added_of_four d b b1 b2 b3 b4 at1 at2 at3 at4;
        },
      )

  -- A flush into a buffered writer whose slots are in order is accepted. Under every signal and key
  -- the buffer then holds, behind the rows that it had, those rows of that signal and key that the
  -- records carry, in their order: the rows of each envelope, or a payload of one row, without the
  -- texts that do not parse and the malformed envelopes. The slots stay in order and the files as
  -- they were; no row is from before the epoch.
  pub flush_records-Arrived :
      (recs : List WalRecord) (b : WriteBuffer Row) (files : List (BufferKey × SignalBatch Row))
      → Unique b.slots
      → WellTagged b.slots
      → ((k : SignalType) → AllFromEpoch format_hour (fields k) (decoded_rows parse k recs))
      → (b' : WriteBuffer Row) × (flush_records parse format_hour fields write_ok now recs
            (buffered b files)
          ≡ (buffered b' files, true))
        × Arrived b b' (λ k. decoded_rows parse k recs)
  unfolding flush_records
  flush_records-Arrived recs b files u t h =
      let empty : Decoded Row = record { spans = []; metrics = []; logs = []; scores = [] } in
      let (b', ran, arrived) =
        insert_decoded-Arrived (decode_records parse recs empty) b files u t
          (λ k. rw (vector-empty k recs) (h k)) in
      (
        b',
        ran,
        record {
          unique = arrived.unique;
          tagged = arrived.tagged;
          added = λ k q.
              arrived.added k q
              ∙ ap
                  (λ (l : List (Row k)).
                    collect k (buffer_key q (signal_tag k)) (batches b.slots)
                    ++ rows_with format_hour (fields k) q l)
                  (vector-empty k recs);
        },
      )
