-- ===== src/Examples/Buffers.antt =====
-- Two rows of two workspaces, on their way through the write buffer.
use zradar.Base.{
  ℕ, ◌-◌, ◌≤◌, ◌<◌, ◌⊎◌, ◌↔◌, ◌+◌, ◌*◌, ◌≡◌, refl, some, List, [], ◌∷◌, ◌++◌, true, false,
}
use zradar.Base.Bytes.{Bytes}
use zradar.Base.Integers.{ℤ, pos}
use zradar.Wal.Record.{SignalType, trace, log}
use zradar.Storage.Keys.{PartitionKey}
use zradar.Storage.WriteBuffer.{BufferKey, BufferSlot, SignalBatch, WriteBuffer, signal_tag}
use zradar.Storage.WriteBuffer.Drain.{drain_eligible, record_count, count_rows}
use zradar.Storage.WriteBuffer.Drain.Due.{drain_eligible-splits}
use mathlib.Core.List.{Memᴰ}
use zradar.Storage.WriteBuffer.Rows.{collect, batches}
use zradar.Storage.FlushWorker.{
  FlushWorker, Step, pushes, flushes, shuts_down, flush_remaining, run,
}
use zradar.Storage.FlushWorker.Accounts.{
  rows_at, pushed, IsBuffer, run-rows, flush_remaining_complete,
}
use zradar.Storage.Writer.{RowFields, key_of, insert_rows, insert_rows_owned}
use zradar.Storage.Writer.Groups.{rows_with, AllFromEpoch}
use zradar.Storage.Writer.Routes.{Routed, insert_rows-Routed, insert_rows_owned-copied}

pub record ExampleRow : Type 0 where
  workspace_id : Bytes
  service_name : Bytes
  timestamp : ℕ

abbrev pub row_fields : RowFields ExampleRow
row_fields = record {
  workspace_of = λ r. r.workspace_id;
  service_of = λ r. r.service_name;
  ts_of = λ r. pos r.timestamp;
}

abbrev pub Rows : SignalType → Type 0
Rows k = ExampleRow

abbrev pub format_hours : ℤ → Bytes
format_hours (pos n) = n ∷ []
format_hours _ = []

abbrev pub ours : ExampleRow
ours = record { workspace_id = b'a' ∷ []; service_name = b's' ∷ []; timestamp = 7_200_000_000_000 }

abbrev pub theirs : ExampleRow
theirs = record { workspace_id = b'b' ∷ []; service_name = []; timestamp = 7_200_000_000_001 }

both-AllFromEpoch : AllFromEpoch format_hours row_fields (ours ∷ theirs ∷ [])
both-AllFromEpoch = ((7_200_000_000_000, refl), ((7_200_000_000_001, refl), tt))

abbrev our_key : PartitionKey
our_key = key_of format_hours row_fields ours

abbrev pub empty_buffer : WriteBuffer Rows
empty_buffer = record { slots = []; max_slot_bytes = 1_000; notified = false }

insert_rows-Routed_example :
    (b' : WriteBuffer Rows) × (insert_rows_owned format_hours
        (λ k. row_fields)
        (λ key b. false)
        5
        log
        (ours ∷ theirs ∷ [])
        (record { buffer = some empty_buffer; files = [] })
      ≡ (record { buffer = some b'; files = [] }, true))
    × Routed log empty_buffer b' (λ q. rows_with format_hours row_fields q (ours ∷ theirs ∷ []))
insert_rows-Routed_example =
    insert_rows-Routed format_hours (λ k. row_fields) (λ key b. false) 5 log (ours ∷ theirs ∷ [])
      empty_buffer [] tt tt both-AllFromEpoch

insert_rows_owned-copied_example :
    insert_rows_owned format_hours
      (λ k. row_fields)
      (λ key b. true)
      5
      log
      (ours ∷ theirs ∷ [])
      (record { buffer = some empty_buffer; files = [] })
    ≡ insert_rows format_hours
        (λ k. row_fields)
        (λ key b. true)
        5
        log
        (ours ∷ theirs ∷ [])
        (record { buffer = some empty_buffer; files = [] })
insert_rows_owned-copied_example =
    insert_rows_owned-copied format_hours (λ k. row_fields) (λ key b. true) 5 log
      (ours ∷ theirs ∷ []) (record { buffer = some empty_buffer; files = [] })

abbrev span_slot : BufferKey
span_slot = record {
  workspace_id = b'a' ∷ [];
  signal_type = signal_tag trace;
  stream_name = b's' ∷ [];
  hour = 2 ∷ [];
}

-- Two spans are pushed, a flush comes between, and the worker shuts down.
abbrev steps : List (Step Rows)
steps =
    pushes trace span_slot (ours ∷ []) 5
    ∷ flushes 0 6
    ∷ pushes trace span_slot (ours ∷ ours ∷ []) 7
    ∷ shuts_down
    ∷ []

abbrev idle_worker : FlushWorker Rows
idle_worker = record { buffer = empty_buffer; written = record { files = []; dropped = [] } }

run-rows_example :
    ((k : SignalType) (key : BufferKey)
      → rows_at k key (run (λ key b. true) steps idle_worker)
        ≡ rows_at k key idle_worker ++ pushed k key steps)
    × IsBuffer (run (λ key b. true) steps idle_worker).buffer
run-rows_example =
    run-rows (λ key b. true) (λ key b. refl) steps idle_worker (tt, tt) (refl, (refl, tt))

abbrev full_buffer : WriteBuffer Rows
full_buffer = record {
  slots =
      (
        span_slot,
        record { data_ = SignalBatch.spans (ours ∷ []); size_bytes = 512; created_at = 5 },
      )
      ∷ [];
  max_slot_bytes = 500;
  notified = true;
}

abbrev waiting_worker : FlushWorker Rows
waiting_worker = record { buffer = full_buffer; written = record { files = []; dropped = [] } }

flush_remaining_complete_example :
    ((flush_remaining (λ key b. true) waiting_worker).buffer.slots ≡ [])
    × ((k : SignalType) (key : BufferKey)
        → collect k key (flush_remaining (λ key b. true) waiting_worker).written.files
          ≡ rows_at k key waiting_worker)
flush_remaining_complete_example =
    flush_remaining_complete (λ key b. true) (λ key b. refl) waiting_worker ((tt, tt), (refl, tt))

drain_eligible-splits_example :
    let ttl = 1 * 1_000_000_000 in
    let (drained, b') = drain_eligible 1 6 full_buffer in
    ((e : BufferKey × BufferSlot Rows)
      → Memᴰ e drained
        ↔ (Memᴰ e full_buffer.slots × ((500 ≤ (e.1).size_bytes) ⊎ (ttl ≤ 6 - (e.1).created_at))))
    × ((e : BufferKey × BufferSlot Rows)
        → Memᴰ e b'.slots
          ↔ (Memᴰ e full_buffer.slots × (((e.1).size_bytes < 500) × (6 - (e.1).created_at < ttl))))
    × ((k : SignalType) (key : BufferKey)
        → collect k key (batches drained) ++ collect k key (batches b'.slots)
          ≡ collect k key (batches full_buffer.slots))
    × (count_rows drained + record_count b' ≡ record_count full_buffer)
drain_eligible-splits_example = drain_eligible-splits 1 6 full_buffer (tt, tt)
