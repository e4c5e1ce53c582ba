-- ===== src/Storage/Writer.antt =====
-- telemetry_writer.rs: rows are partitioned by their storage key, and each part goes to its slot of
-- the write buffer, or, without a buffer, to the Parquet file writer, which may fail: `write_ok`.
-- Rows have their workspace, service and time. The map `index` of the source holds, for each key,
-- the place of its group, so that a lookup in it is a search among the groups.
pub mod Groups
pub mod Routes
use zradar.Base.{ℕ, Option, none, some, List, [], ◌∷◌, ◌++◌, Bool, true, false, ◌&&◌, if◌then◌else◌}
use zradar.Base.Bytes.{Bytes, bytes_eq}
use zradar.Base.Integers.{ℤ, div_euclid, eq_ℤ}
use zradar.Wal.Record.{SignalType, trace, metric, log, score}
use zradar.Storage.Keys.{PartitionKey, key_eq, key_of_row, stream_of, nanos_per_hour}
use zradar.Storage.WriteBuffer.{BufferKey, SignalBatch, WriteBuffer, push, push_owned, signal_tag}
use zradar.Storage.WriteBuffer.Rows.{batch}

unfoldable pub buffer_key : PartitionKey → Bytes → BufferKey
buffer_key key signal_type = record {
  workspace_id = key.workspace_id;
  signal_type = signal_type;
  stream_name = key.stream_name;
  hour = key.hour;
}

-- What a partitioning reads of a row.
pub record RowFields (T : Type 0) : Type 0 where
  pub workspace_of : T → Bytes
  pub service_of : T → Bytes
  pub ts_of : T → ℤ

pub data Partitioned (T : Type 0) : Type 0 where
  homogeneous : PartitionKey → List T → Partitioned T
  grouped : List (PartitionKey × List T) → Partitioned T

module _ {T : Type 0} where
  -- The row goes to the end of its group, or into a new last group.
  unfoldable pub push_row :
      PartitionKey → T → List (PartitionKey × List T) → List (PartitionKey × List T)
  push_row key r [] = (key, r ∷ []) ∷ []
  push_row key r ((k, rows) ∷ groups) =
      let rest = push_row key r groups in
      if key_eq key k then (k, rows ++ r ∷ []) ∷ groups else (k, rows) ∷ rest

module _ {T : Type 0} (format_hour : ℤ → Bytes) (fields : RowFields T) where
  abbrev pub key_of : T → PartitionKey
  key_of r = key_of_row format_hour (fields.workspace_of r) (fields.service_of r) (fields.ts_of r)

  -- The discriminators of two rows are equal.
  unfoldable pub same_partition : T → T → Bool
  same_partition first r =
      bytes_eq (fields.workspace_of r) (fields.workspace_of first)
      && bytes_eq (stream_of (fields.service_of r)) (stream_of (fields.service_of first))
      && eq_ℤ (div_euclid (fields.ts_of r) nanos_per_hour)
          (div_euclid (fields.ts_of first) nanos_per_hour)

  -- `rows.iter().all(...)`
  unfoldable pub is_homogeneous : T → List T → Bool
  unfolding same_partition
  is_homogeneous first [] = true
  is_homogeneous first (r ∷ rs) = same_partition first r && is_homogeneous first rs

  unfoldable pub group_rows : List (PartitionKey × List T) → List T → List (PartitionKey × List T)
  unfolding push_row
  group_rows groups [] = groups
  group_rows groups (r ∷ rs) = group_rows (push_row (key_of r) r groups) rs

  -- `rows[0]` is there: the callers return early for no rows.
  unfoldable pub partition_by_storage_key : T → List T → Partitioned T
  unfolding is_homogeneous group_rows
  partition_by_storage_key first rs =
      if is_homogeneous first (first ∷ rs)
      then homogeneous (key_of first) (first ∷ rs)
      else grouped (group_rows [] (first ∷ rs))

  unfoldable pub partition_owned : T → List T → Partitioned T
  unfolding is_homogeneous group_rows
  partition_owned first rs =
      if is_homogeneous first (first ∷ rs)
      then homogeneous (key_of first) (first ∷ rs)
      else grouped (group_rows [] (first ∷ rs))

-- `ParquetTelemetryWriter`, with the calls of its file writer that succeeded.
pub record TelemetryWriter (Row : SignalType → Type 0) : Type 0 where
  pub buffer : Option (WriteBuffer Row)
  pub files : List (BufferKey × SignalBatch Row)

pub data IngestPayload (Row : SignalType → Type 0) : Type 0 where
  spans : List (Row trace) → IngestPayload Row
  metrics : List (Row metric) → IngestPayload Row
  logs : List (Row log) → IngestPayload Row
  scores : List (Row score) → IngestPayload Row

module _ {Row : SignalType → Type 0} where
  -- The rest is written only after this part.
  abbrev pub then_write :
      TelemetryWriter Row × Bool
      → (TelemetryWriter Row → TelemetryWriter Row × Bool)
      → TelemetryWriter Row × Bool
  then_write (w, true) rest = rest w
  then_write (w, false) rest = (w, false)

module _ {Row : SignalType → Type 0} (format_hour : ℤ → Bytes)
    (fields : (k : SignalType) → RowFields (Row k)) (write_ok : BufferKey → SignalBatch Row → Bool)
    (now : ℕ) where
  -- The file writer; `false` for its error.
  unfoldable pub write_file :
      BufferKey → SignalBatch Row → TelemetryWriter Row → TelemetryWriter Row × Bool
  write_file key b w =
      if write_ok key b then (record w { files = w.files ++ (key, b) ∷ [] }, true) else (w, false)

  -- `write_span_partition` and its counterparts; the owned methods move the rows into the buffer.
  unfoldable pub write_to :
      (WriteBuffer Row → WriteBuffer Row)
      → BufferKey
      → SignalBatch Row
      → TelemetryWriter Row
      → TelemetryWriter Row × Bool
  unfolding write_file
  write_to push_rows key b w = elim w.buffer [
    | some buf ↦ (record w { buffer = some (push_rows buf) }, true)
    | none ↦ write_file key b w
  ]

  unfoldable pub write_partition :
      (k : SignalType)
      → PartitionKey
      → List (Row k)
      → TelemetryWriter Row
      → TelemetryWriter Row × Bool
  unfolding write_to push buffer_key
  write_partition k key rows w =
      let slot = buffer_key key (signal_tag k) in
      write_to (push k slot rows now) slot (batch k rows) w

  unfoldable pub write_partition_owned :
      (k : SignalType)
      → PartitionKey
      → List (Row k)
      → TelemetryWriter Row
      → TelemetryWriter Row × Bool
  unfolding write_to push_owned buffer_key
  write_partition_owned k key rows w =
      let slot = buffer_key key (signal_tag k) in
      write_to (push_owned k slot rows now) slot (batch k rows) w

  -- `for (key, group) in &groups { self.write_span_partition(key, group).await?; }`
  unfoldable pub write_groups :
      (k : SignalType)
      → List (PartitionKey × List (Row k))
      → TelemetryWriter Row
      → TelemetryWriter Row × Bool
  unfolding write_partition
  write_groups k [] w = (w, true)
  write_groups k ((key, rows) ∷ groups) w =
      then_write (write_partition k key rows w) (write_groups k groups)

  unfoldable pub write_groups_owned :
      (k : SignalType)
      → List (PartitionKey × List (Row k))
      → TelemetryWriter Row
      → TelemetryWriter Row × Bool
  unfolding write_partition_owned
  write_groups_owned k [] w = (w, true)
  write_groups_owned k ((key, rows) ∷ groups) w =
      then_write (write_partition_owned k key rows w) (write_groups_owned k groups)

  unfoldable pub write_partitioned :
      (k : SignalType) → Partitioned (Row k) → TelemetryWriter Row → TelemetryWriter Row × Bool
  unfolding write_groups
  write_partitioned k (homogeneous key rows) w = write_partition k key rows w
  write_partitioned k (grouped groups) w = write_groups k groups w

  unfoldable pub write_partitioned_owned :
      (k : SignalType) → Partitioned (Row k) → TelemetryWriter Row → TelemetryWriter Row × Bool
  unfolding write_groups_owned
  write_partitioned_owned k (homogeneous key rows) w = write_partition_owned k key rows w
  write_partitioned_owned k (grouped groups) w = write_groups_owned k groups w

  -- `insert_spans` and its counterparts.
  unfoldable pub insert_rows :
      (k : SignalType) → List (Row k) → TelemetryWriter Row → TelemetryWriter Row × Bool
  unfolding write_partitioned partition_by_storage_key
  insert_rows k [] w = (w, true)
  insert_rows k (first ∷ rs) w =
      write_partitioned k (partition_by_storage_key format_hour (fields k) first rs) w

  unfoldable pub insert_rows_owned :
      (k : SignalType) → List (Row k) → TelemetryWriter Row → TelemetryWriter Row × Bool
  unfolding write_partitioned_owned partition_owned
  insert_rows_owned k [] w = (w, true)
  insert_rows_owned k (first ∷ rs) w =
      write_partitioned_owned k (partition_owned format_hour (fields k) first rs) w

  unfoldable pub insert_batch : IngestPayload Row → TelemetryWriter Row → TelemetryWriter Row × Bool
  unfolding insert_rows_owned
  insert_batch (spans rows) = insert_rows_owned trace rows
  insert_batch (metrics rows) = insert_rows_owned metric rows
  insert_batch (logs rows) = insert_rows_owned log rows
  insert_batch (scores rows) = insert_rows_owned score rows
