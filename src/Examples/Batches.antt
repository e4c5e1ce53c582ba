-- ===== src/Examples/Batches.antt =====
-- A batch of two rows of one workspace is appended to a log.
use zradar.Base.{
  ℕ, ◌^◌, ◌<◌, ◌≡◌, refl, Option, none, some, List, [], ◌∷◌, ◌++◌, Bool, true, ap, arith,
}
use zradar.Base.Bytes.{Bytes, to_be}
use zradar.Wal.Batch.{encode_json_rows}
use zradar.Wal.Disk.{Probe, DiskSpaceGuard, admit, sample_due, elapsed_ms}
use zradar.Wal.Log.{stamp}
use zradar.Wal.Log.View.{IsLog, contents}
use zradar.Wal.Record.{SignalType, metric, WalRecord, IsWire}
use zradar.Storage.Sink.Arrives.{decoded_rows}
use zradar.Storage.WalWriter.{
  BatchAnswer, push_group, batch_record, workspace_uuid, group_payloads, append_batches,
}
use zradar.Storage.WalWriter.Grouped.{GroupsFit, records_with, rows_of_workspace}
use zradar.Storage.WalWriter.Logged.{calls, append_batches-logged}
use mathlib.Core.List.{Memᴰ}
use zradar.Examples.Data.{checksum, checksum_u32}
use zradar.Examples.Logs.{log, log-IsLog, guard, soon, soon_admitted}

-- A row is a number, and its JSON that byte.
abbrev Numbers : SignalType → Type 0
Numbers k = ℕ

abbrev to_vec : ℕ → Option Bytes
to_vec n = some (n ∷ [])

abbrev parse : (k : SignalType) → Bytes → Option (Numbers k)
parse k (n ∷ []) = some n
parse k _ = none

abbrev workspace_of : ℕ → Bytes
workspace_of n = []

abbrev parse_uuid : Bytes → Option ℕ
parse_uuid text = some 9

abbrev groups : List (ℕ × List Bytes)
groups = (9, (5 ∷ []) ∷ (6 ∷ []) ∷ []) ∷ []

abbrev probes : ℕ → Probe
probes n = soon

abbrev durable : ℕ → Bool
durable t = true

reads_back :
    (n : ℕ) (text : Bytes) → Memᴰ n (5 ∷ 6 ∷ []) → to_vec n ≡ some text → parse metric text ≡ some n
reads_back n text at e = let same : text ≡ n ∷ [] = cc in ap (parse metric) same

rows_grouped : group_payloads parse_uuid workspace_of to_vec (5 ∷ 6 ∷ []) [] ≡ some groups
unfolding group_payloads push_group workspace_uuid
rows_grouped = refl

groups-GroupsFit : GroupsFit groups
groups-GroupsFit = ((omega arith, (omega arith, (omega arith, tt)), omega arith), tt)

abbrev checked_guard : DiskSpaceGuard
checked_guard = (admit soon guard).0

still_admitted : (admit soon checked_guard).1 ≡ none
unfolding admit sample_due elapsed_ms
still_admitted = refl

batch-IsWire : IsWire (stamp 4 (batch_record metric 7 (9, (5 ∷ []) ∷ (6 ∷ []) ∷ [])))
unfolding stamp batch_record encode_json_rows to_be
batch-IsWire = record {
  workspace_16 = refl;
  timestamp_64 = omega arith;
  offset_64 = omega arith;
  payload_32 = omega arith;
}

append_batches-logged_example :
    let (w', answer) =
      append_batches parse_uuid workspace_of to_vec checksum metric 7
        (calls checksum checksum_u32 metric 7 probes durable)
        durable
        soon
        (5 ∷ 6 ∷ [])
        log in
    (answer ≡ BatchAnswer.ok)
    × IsLog checksum w'
    × ((recs : List WalRecord) × (contents checksum w'.dir ≡ contents checksum log.dir ++ recs)
        × ((id : ℕ)
            → id < 256 ^ 16
            → decoded_rows parse metric (records_with id recs)
              ≡ rows_of_workspace parse parse_uuid metric workspace_of to_vec 7 id (5 ∷ 6 ∷ [])))
append_batches-logged_example =
    append_batches-logged parse parse_uuid metric workspace_of to_vec checksum checksum_u32 7 probes
      durable soon 5 (6 ∷ []) groups log reads_back (λ t. refl) rows_grouped groups-GroupsFit
      log-IsLog soon_admitted ((batch-IsWire, omega arith, still_admitted), tt)
