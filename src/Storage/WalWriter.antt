-- ===== src/Storage/WalWriter.antt =====
-- builder.rs (crates/runtime/zradar-runtime/src): `WalTelemetryWriter`, which appends a batch of rows
-- to the WAL, one record for each workspace. The texts of UUIDs and serde_json are other packages':
-- `parse_uuid` gives a UUID as a number, `to_vec` the JSON of a row, if they have one.
pub mod Grouped
pub mod Logged
use zradar.Base.{
  ℕ, suc, Option, none, some, List, [], ◌∷◌, ◌++◌, Bool, true, false, ◌&&◌, if◌then◌else◌, ltb,
}
use zradar.Base.Bytes.{Bytes, to_be}
use zradar.Wal.AppendError.{AppendError, is_retryable}
use zradar.Wal.Batch.{encode_json_rows}
use zradar.Wal.Disk.{Probe, admit}
use zradar.Wal.Log.{Wal, Faults, Appended, append}
use zradar.Wal.Record.{SignalType, WalRecord}

-- `groups.entry(workspace_id).or_default().push(bytes)`, in a map that is ordered by its keys.
unfoldable pub push_group : ℕ → Bytes → List (ℕ × List Bytes) → List (ℕ × List Bytes)
push_group id text [] = (id, text ∷ []) ∷ []
push_group id text ((k, texts) ∷ groups) =
    let rest = push_group id text groups in
    if ltb id k
    then (id, text ∷ []) ∷ (k, texts) ∷ groups
    else if ltb k id
    then (k, texts) ∷ rest
    else (k, texts ++ text ∷ []) ∷ groups

unfoldable pub batch_record : SignalType → ℕ → ℕ × List Bytes → WalRecord
batch_record signal now (workspace_id, payloads) = record {
  signal_type = signal;
  workspace_id = to_be 16 workspace_id;
  arrival_timestamp_ns = now;
  assigned_offset = 0;
  payload = encode_json_rows payloads;
}

pub data Handles : Type 0 where
  handles : (tickets : List ℕ) → Handles
  failed : AppendError → Handles

abbrev add_handle : ℕ → Wal × Handles → Wal × Handles
add_handle ticket (w, handles tickets) = (w, handles (ticket ∷ tickets))
add_handle ticket (w, failed e) = (w, failed e)

pub data BatchAnswer : Type 0 where
  ok : BatchAnswer
  row_serialize : BatchAnswer
  write_unavailable : AppendError → BatchAnswer
  append_error : AppendError → BatchAnswer
  fsync_error : BatchAnswer

-- The client is told to try again after a transient failure.
unfoldable pub wal_append_error : AppendError → BatchAnswer
unfolding is_retryable
wal_append_error e = if is_retryable e then write_unavailable e else append_error e

module _ (crc32 : Bytes → ℕ) (signal : SignalType) (now : ℕ) (calls : ℕ → Probe × Faults)
    (durable : ℕ → Bool) where
  -- The groups from number n on; the groups before a failing one stay in the WAL.
  unfoldable pub append_groups : ℕ → List (ℕ × List Bytes) → Wal → Wal × Handles
  unfolding batch_record append
  append_groups n [] w = (w, handles [])
  append_groups n (group ∷ groups) w =
      let (probe, faults) = calls n in
      let (w1, answer) = append crc32 probe faults (batch_record signal now group) w in
      elim answer [
        | Appended.ok ticket ↦ add_handle ticket (append_groups (suc n) groups w1)
        | Appended.err e ↦ (w1, failed e)
      ]

  unfoldable pub wait_durable : List ℕ → BatchAnswer
  wait_durable [] = ok
  wait_durable (ticket ∷ tickets) = if durable ticket then wait_durable tickets else fsync_error

  -- `await` of the handles, or the answer to the append that failed.
  abbrev await_handles : Handles → BatchAnswer
  await_handles (handles tickets) = wait_durable tickets
  await_handles (failed e) = wal_append_error e

  -- `check_free_space` comes first, and refuses the whole request.
  unfoldable pub append_checked : Probe → List (ℕ × List Bytes) → Wal → Wal × BatchAnswer
  unfolding append_groups wait_durable admit wal_append_error
  append_checked probe groups w =
      let (guard, refused) = admit probe w.disk_guard in
      let checked : Wal = record w { disk_guard = guard } in
      elim refused [
        | some e ↦ (checked, wal_append_error e)
        | none ↦ let (w1, taken) = append_groups 0 groups checked in (w1, await_handles taken)
      ]

module _ {T : Type 0} (parse_uuid : Bytes → Option ℕ) (workspace_of : T → Bytes)
    (to_vec : T → Option Bytes) where
  -- `Uuid::parse_str(workspace_of(row)).unwrap_or(Uuid::nil())`
  unfoldable pub workspace_uuid : T → ℕ
  workspace_uuid r = elim (parse_uuid (workspace_of r)) [ some id ↦ id | none ↦ 0 ]

  -- A row that does not serialize ends the request before anything is appended.
  unfoldable pub group_payloads : List T → List (ℕ × List Bytes) → Option (List (ℕ × List Bytes))
  unfolding push_group workspace_uuid
  group_payloads [] groups = some groups
  group_payloads (r ∷ rs) groups = elim (to_vec r) [
    | some text ↦ group_payloads rs (push_group (workspace_uuid r) text groups)
    | none ↦ none
  ]

  unfoldable pub append_batches :
      (crc32 : Bytes → ℕ)
      → SignalType
      → ℕ
      → (ℕ → Probe × Faults)
      → (ℕ → Bool)
      → Probe
      → List T
      → Wal
      → Wal × BatchAnswer
  unfolding group_payloads append_checked
  append_batches crc32 signal now calls durable probe [] w = (w, ok)
  append_batches crc32 signal now calls durable probe (r ∷ rs) w =
      elim (group_payloads (r ∷ rs) []) [
        | some groups ↦ append_checked crc32 signal now calls durable probe groups w
        | none ↦ (w, row_serialize)
      ]
