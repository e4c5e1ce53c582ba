-- ===== src/Storage/Writer/Routes.antt =====
-- telemetry_writer.rs: where an inserted batch goes.
use zradar.Base.{
  ℕ, ◌≡◌, ◌≢◌, refl, sym, ap, ◌∙◌, some, List, [], ◌∷◌, ◌++◌, append_assoc, append-nil, Bool, true,
  false, if◌then◌else◌, arith,
}
use zradar.Base.Bytes.{Bytes, bytes_eq_refl}
use zradar.Base.Integers.{ℤ}
use zradar.Wal.Record.{SignalType, trace, metric, log, score}
use zradar.Storage.Keys.{PartitionKey, key_eq}
use zradar.Storage.WriteBuffer.{
  BufferKey, buffer_key_eq, SignalBatch, WriteBuffer, push, signal_tag,
}
use zradar.Storage.WriteBuffer.Rows.{batch, rows_of, collect, batches, Unique, WellTagged}
use zradar.Storage.WriteBuffer.Pushes.{push_owned-push, push-collect, push-keeps}
use zradar.Storage.Writer.{
  buffer_key, RowFields, Partitioned, homogeneous, grouped, partition_by_storage_key,
  partition_owned, TelemetryWriter, write_to, write_partition, write_partition_owned, then_write,
  write_groups, write_groups_owned, write_partitioned, write_partitioned_owned, insert_rows,
  insert_rows_owned,
}
use zradar.Storage.Writer.Groups.{
  select, rows_with, AllFromEpoch, groups_of, partition_by_storage_key-select,
}

buffer_key_eq-buffer_key :
    (q p : PartitionKey) (tag : Bytes)
    → buffer_key_eq (buffer_key q tag) (buffer_key p tag) ≡ key_eq q p
unfolding buffer_key_eq key_eq buffer_key
buffer_key_eq-buffer_key q p tag = ground (arith, bytes_eq_refl tag)

signal_type-buffer_key : (p : PartitionKey) (tag : Bytes) → (buffer_key p tag).signal_type ≡ tag
unfolding buffer_key
signal_type-buffer_key p tag = refl

rows_of-batch :
    (Row : SignalType → Type 0) (k : SignalType) (rows : List (Row k))
    → rows_of {Row = Row} k (batch k rows) ≡ rows
unfolding rows_of
rows_of-batch Row trace rows = refl
rows_of-batch Row metric rows = refl
rows_of-batch Row log rows = refl
rows_of-batch Row score rows = refl

rows_of-other :
    (Row : SignalType → Type 0) (j k : SignalType) (rows : List (Row k))
    → j ≢ k
    → rows_of {Row = Row} j (batch k rows) ≡ []
unfolding rows_of
rows_of-other Row trace trace rows other = absurd (other refl)
rows_of-other Row metric metric rows other = absurd (other refl)
rows_of-other Row log log rows other = absurd (other refl)
rows_of-other Row score score rows other = absurd (other refl)
rows_of-other Row _ _ rows other = refl

nothing_more : {A : Type 0} (b : Bool) (xs : List A) → xs ++ (if b then [] else []) ≡ xs
nothing_more true xs = append-nil xs
nothing_more false xs = append-nil xs

module _ {Row : SignalType → Type 0} where
  -- A buffer in order, and the rows of the groups behind those that it had.
  pub record Routed (k : SignalType) (b b' : WriteBuffer Row) (rows : PartitionKey → List (Row k))
      : Type 0 where
    pub unique : Unique b'.slots
    pub tagged : WellTagged b'.slots
    pub added :
        (q : PartitionKey)
        → let slot = buffer_key q (signal_tag k) in
          collect k slot (batches b'.slots) ≡ collect k slot (batches b.slots) ++ rows q
    pub others :
        (j : SignalType) (key : BufferKey)
        → j ≢ k
        → collect j key (batches b'.slots) ≡ collect j key (batches b.slots)

module _ {Row : SignalType → Type 0} (format_hour : ℤ → Bytes)
    (fields : (k : SignalType) → RowFields (Row k)) (write_ok : BufferKey → SignalBatch Row → Bool)
    (now : ℕ) where
  write_partition_owned-copied :
      (k : SignalType) (key : PartitionKey) (rows : List (Row k)) (w : TelemetryWriter Row)
      → write_partition_owned format_hour fields write_ok now k key rows w
        ≡ write_partition format_hour fields write_ok now k key rows w
  unfolding write_partition write_partition_owned
  write_partition_owned-copied k key rows w =
      let slot = buffer_key key (signal_tag k) in
      ap
        (λ (push_rows : WriteBuffer Row → WriteBuffer Row).
          write_to format_hour fields write_ok now push_rows slot (batch k rows) w)
        (λ i b. push_owned-push k slot rows now b i)

  write_groups_owned-copied :
      (k : SignalType) (groups : List (PartitionKey × List (Row k))) (w : TelemetryWriter Row)
      → write_groups_owned format_hour fields write_ok now k groups w
        ≡ write_groups format_hour fields write_ok now k groups w
  unfolding write_groups write_groups_owned
  write_groups_owned-copied k [] w = refl
  write_groups_owned-copied k ((key, rows) ∷ groups) w = λ i.
      then_write (write_partition_owned-copied k key rows w i)
        (λ v. write_groups_owned-copied k groups v i)

  write_partitioned_owned-copied :
      (k : SignalType) (parts : Partitioned (Row k)) (w : TelemetryWriter Row)
      → write_partitioned_owned format_hour fields write_ok now k parts w
        ≡ write_partitioned format_hour fields write_ok now k parts w
  unfolding write_partitioned write_partitioned_owned
  write_partitioned_owned-copied k (homogeneous key rows) w =
      write_partition_owned-copied k key rows w
  write_partitioned_owned-copied k (grouped groups) w = write_groups_owned-copied k groups w

  -- The path that moves the rows of a batch and the path that copies them do the same to the buffer
  -- and to the files, with the same error, whatever the file writer answers.
  pub insert_rows_owned-copied :
      (k : SignalType) (rows : List (Row k)) (w : TelemetryWriter Row)
      → insert_rows_owned format_hour fields write_ok now k rows w
        ≡ insert_rows format_hour fields write_ok now k rows w
  unfolding insert_rows insert_rows_owned partition_owned partition_by_storage_key
  insert_rows_owned-copied k [] w = refl
  insert_rows_owned-copied k (first ∷ rs) w =
      write_partitioned_owned-copied k (partition_by_storage_key format_hour (fields k) first rs) w

  write_groups-Routed :
      (k : SignalType) (groups : List (PartitionKey × List (Row k))) (b : WriteBuffer Row)
      (files : List (BufferKey × SignalBatch Row))
      → Unique b.slots
      → WellTagged b.slots
      → (b' : WriteBuffer Row) × (write_groups format_hour fields write_ok now k groups
            (record { buffer = some b; files = files })
          ≡ (record { buffer = some b'; files = files }, true))
        × Routed k b b' (λ q. select q groups)
  unfolding write_groups write_partition write_to select
  write_groups-Routed k [] b files u t = (
    b,
    refl,
    record {
      unique = u;
      tagged = t;
      added = λ q. sym (append-nil (collect k (buffer_key q (signal_tag k)) (batches b.slots)));
      others = λ j key other. refl;
    },
  )
  write_groups-Routed k ((key, rows) ∷ groups) b files u t =
      let slot = buffer_key key (signal_tag k) in
      let kept = push-keeps k slot rows now b u t (signal_type-buffer_key key (signal_tag k)) in
      let (b', ran, rest) =
        write_groups-Routed k groups (push k slot rows now b) files kept.0 kept.1 in
      (
        b',
        ran,
        record {
          unique = rest.unique;
          tagged = rest.tagged;
          added = λ q.
              let at = buffer_key q (signal_tag k) in
              rest.added q
              ∙ ap (λ (l : List (Row k)). l ++ select q groups)
                  (push-collect k slot rows now b k at u t
                      (signal_type-buffer_key key (signal_tag k))
                    ∙ ap
                        (λ (same : Bool).
                          collect k at (batches b.slots)
                          ++ (if same then rows_of {Row = Row} k (batch k rows) else []))
                        (buffer_key_eq-buffer_key q key (signal_tag k))
                    ∙ ap
                        (λ (l : List (Row k)).
                          collect k at (batches b.slots) ++ (if key_eq q key then l else []))
                        (rows_of-batch Row k rows))
              ∙ append_assoc (collect k at (batches b.slots)) (if key_eq q key then rows else [])
                  (select q groups);
          others = λ j at other.
              rest.others j at other
              ∙ push-collect k slot rows now b j at u t (signal_type-buffer_key key (signal_tag k))
              ∙ ap
                  (λ (l : List (Row j)).
                    collect j at (batches b.slots) ++ (if buffer_key_eq at slot then l else []))
                  (rows_of-other Row j k rows other)
              ∙ nothing_more (buffer_key_eq at slot) (collect j at (batches b.slots));
        },
      )

  then_write-end : (out : TelemetryWriter Row × Bool) → then_write out (λ w. (w, true)) ≡ out
  then_write-end (w, true) = refl
  then_write-end (w, false) = refl

  write_partitioned-groups_of :
      (k : SignalType) (first : Row k) (rs : List (Row k)) (parts : Partitioned (Row k))
      (w : TelemetryWriter Row)
      → write_partitioned format_hour fields write_ok now k parts w
        ≡ write_groups format_hour fields write_ok now k (groups_of format_hour (fields k) parts) w
  unfolding write_partitioned write_groups
  write_partitioned-groups_of k first rs (homogeneous key rows) w =
      sym (then_write-end (write_partition format_hour fields write_ok now k key rows w))
  write_partitioned-groups_of k first rs (grouped groups) w = refl

  -- A batch inserted into a buffered writer is accepted, and each of its rows waits behind the rows
  -- of its own workspace, stream and hour, in order, and under no other key of its signal; the files
  -- are as they were. No row is from before the epoch.
  pub insert_rows-Routed :
      (k : SignalType) (rows : List (Row k)) (b : WriteBuffer Row)
      (files : List (BufferKey × SignalBatch Row))
      → Unique b.slots
      → WellTagged b.slots
      → AllFromEpoch format_hour (fields k) rows
      → (b' : WriteBuffer Row) × (insert_rows_owned format_hour fields write_ok now k rows
            (record { buffer = some b; files = files })
          ≡ (record { buffer = some b'; files = files }, true))
        × Routed k b b' (λ q. rows_with format_hour (fields k) q rows)
  insert_rows-Routed k [] b files u t h =
      let (b', ran, routed) = write_groups-Routed k [] b files u t in
      (
        b',
        insert_rows_owned-copied k [] _ ∙ unfold insert_rows write_groups in ran,
        record {
          unique = routed.unique;
          tagged = routed.tagged;
          added = λ q. unfold rows_with select in routed.added q;
          others = routed.others;
        },
      )
  insert_rows-Routed k (first ∷ rs) b files u t h =
      let parts = partition_by_storage_key format_hour (fields k) first rs in
      let (b', ran, routed) =
        write_groups-Routed k (groups_of format_hour (fields k) parts) b files u t in
      (
        b',
        insert_rows_owned-copied k (first ∷ rs) _
            ∙ unfold insert_rows in (write_partitioned-groups_of k first rs parts _ ∙ ran),
        record {
          unique = routed.unique;
          tagged = routed.tagged;
          others = routed.others;
          added = λ q.
              routed.added q
              ∙ ap
                  (λ (l : List (Row k)).
                    collect k (buffer_key q (signal_tag k)) (batches b.slots) ++ l)
                  (partition_by_storage_key-select format_hour (fields k) q first rs h);
        },
      )
