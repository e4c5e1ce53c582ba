-- ===== src/Storage/WalWriter/Logged.antt =====
-- builder.rs: a batch in the log.
use zradar.Base.{
  ℕ, suc, ◌+◌, ◌^◌, ◌<◌, ◌≡◌, refl, sym, ◌∙◌, Option, none, some, List, [], ◌∷◌, ◌++◌, append_assoc,
  append-nil, Bool, true,
}
use zradar.Base.Bytes.{Bytes}
use zradar.Wal.Disk.{Probe, admit}
use zradar.Wal.Log.{Wal, Faults, no_faults, append, stamp}
use zradar.Wal.Log.Append.{append-contents}
use zradar.Wal.Log.View.{IsLog, contents, keep_log}
use zradar.Wal.Record.{SignalType, IsWire, WalRecord}
use zradar.Storage.WalWriter.{
  handles, BatchAnswer, batch_record, append_groups, wait_durable, append_checked, group_payloads,
  append_batches,
}
use zradar.Storage.WalWriter.Grouped.{
  stamped_records, GroupsFit, records_with, rows_of_workspace, group_payloads-decoded_rows,
}
use zradar.Storage.Sink.Arrives.{decoded_rows}
use mathlib.Core.List.{Memᴰ}

module _ (crc32 : Bytes → ℕ) (crc32_u32 : (b : Bytes) → crc32 b < 256 ^ 4) (signal : SignalType)
    (now : ℕ) (probes : ℕ → Probe) (durable : ℕ → Bool) where
  abbrev pub calls : ℕ → Probe × Faults
  calls n = (probes n, no_faults)

  -- Each append is let through by the guard, its record fits the format, and there is a next id.
  abbrev pub Accepted : ℕ → List (ℕ × List Bytes) → Wal → Type 0
  Accepted n [] w = Unit
  Accepted n (group ∷ groups) w =
      let rec = batch_record signal now group in
      (IsWire (stamp w.offset_counter rec)
        × (w.writer.segment_id + 1 < 256 ^ 8)
        × ((admit (probes n) w.disk_guard).1 ≡ none))
      × Accepted (suc n) groups (append crc32 (probes n) no_faults rec w).0

  append_groups-contents :
      (n : ℕ) (groups : List (ℕ × List Bytes)) (w : Wal)
      → IsLog crc32 w
      → Accepted n groups w
      → let (w', answer) = append_groups crc32 signal now calls durable n groups w in
        (tickets : List ℕ) × (answer ≡ handles tickets)
        × IsLog crc32 w'
        × (contents crc32 w'.dir
            ≡ contents crc32 w.dir ++ stamped_records signal now w.offset_counter groups)
  unfolding append_groups stamped_records
  append_groups-contents n [] w h ok = ([], refl, h, sym (append-nil _))
  append_groups-contents n (group ∷ groups) w h ok =
      let rec = batch_record signal now group in
      let (log, grown, next, ran) =
        append-contents crc32 crc32_u32 (probes n) rec w h ok.0.0 (rw (sym h.writer_id) ok.0.1)
          ok.0.2 in
      let w1 = (append crc32 (probes n) no_faults rec w).0 in
      let (tickets, taken, after, more) = append_groups-contents (suc n) groups w1 log ok.1 in
      rw (ran, append_groups, taken)
        (
          w.fsync_queue.next_ticket ∷ tickets,
          refl,
          after,
          more
              ∙ (λ i. grown i ++ stamped_records signal now (next i) groups)
              ∙ append_assoc (contents crc32 w.dir) _ _,
        )

  wait_durable-ok :
      (tickets : List ℕ)
      → ((t : ℕ) → durable t ≡ true)
      → wait_durable crc32 signal now calls durable tickets ≡ BatchAnswer.ok
  unfolding wait_durable
  wait_durable-ok [] h = refl
  wait_durable-ok (ticket ∷ tickets) h = rw (h ticket) (wait_durable-ok tickets h)

  append_checked-contents :
      (probe : Probe) (groups : List (ℕ × List Bytes)) (w : Wal)
      → ((t : ℕ) → durable t ≡ true)
      → IsLog crc32 w
      → (admit probe w.disk_guard).1 ≡ none
      → Accepted 0 groups (record w { disk_guard = (admit probe w.disk_guard).0 })
      → let (w', answer) = append_checked crc32 signal now calls durable probe groups w in
        (answer ≡ BatchAnswer.ok)
        × IsLog crc32 w'
        × (contents crc32 w'.dir
            ≡ contents crc32 w.dir ++ stamped_records signal now w.offset_counter groups)
  unfolding append_checked
  append_checked-contents probe groups w synced h admitted ok =
      let v : Wal = record w { disk_guard = (admit probe w.disk_guard).0 } in
      let (tickets, taken, after, more) =
        append_groups-contents 0 groups v (keep_log crc32 w w.offset_counter v.disk_guard h) ok in
      rw (admitted, append_checked, taken) (wait_durable-ok tickets synced, after, more)

module _ {Row : SignalType → Type 0} (parse : (k : SignalType) → Bytes → Option (Row k))
    (parse_uuid : Bytes → Option ℕ) (k : SignalType) (workspace_of : Row k → Bytes)
    (to_vec : Row k → Option Bytes) (crc32 : Bytes → ℕ)
    (crc32_u32 : (b : Bytes) → crc32 b < 256 ^ 4) (now : ℕ) (probes : ℕ → Probe)
    (durable : ℕ → Bool) where
  -- A batch of at least one row is accepted by a well-formed log, when each of its rows serializes
  -- to a JSON that reads back as that row, no disk call or fsync fails, the guard admits the
  -- request and each append, the sizes and numbers fit their fields and the segment ids do not run
  -- out. The log then holds, behind what it held, records in which the flush sink finds, for each
  -- workspace, exactly the rows of that workspace in the order of the batch.
  pub append_batches-logged :
      (probe : Probe) (r : Row k) (rs : List (Row k)) (groups : List (ℕ × List Bytes)) (w : Wal)
      → ((row : Row k) (text : Bytes)
          → Memᴰ row (r ∷ rs)
          → to_vec row ≡ some text
          → parse k text ≡ some row)
      → ((t : ℕ) → durable t ≡ true)
      → group_payloads parse_uuid workspace_of to_vec (r ∷ rs) [] ≡ some groups
      → GroupsFit groups
      → IsLog crc32 w
      → (admit probe w.disk_guard).1 ≡ none
      → Accepted crc32 crc32_u32 k now probes durable 0 groups
          (record w { disk_guard = (admit probe w.disk_guard).0 })
      → let (w', answer) =
          append_batches parse_uuid workspace_of to_vec crc32 k now
            (calls crc32 crc32_u32 k now probes durable)
            durable
            probe
            (r ∷ rs)
            w in
        (answer ≡ BatchAnswer.ok)
        × IsLog crc32 w'
        × ((recs : List WalRecord) × (contents crc32 w'.dir ≡ contents crc32 w.dir ++ recs)
            × ((id : ℕ)
                → id < 256 ^ 16
                → decoded_rows parse k (records_with id recs)
                  ≡ rows_of_workspace parse parse_uuid k workspace_of to_vec now id (r ∷ rs)))
  unfolding append_batches
  append_batches-logged probe r rs groups w reads synced grouped fit h admitted ok =
      let (answer, after, grown) =
        append_checked-contents crc32 crc32_u32 k now probes durable probe groups w synced h
          admitted ok in
      rw (grouped, append_batches)
        (
          answer,
          after,
          (
            stamped_records k now w.offset_counter groups,
            grown,
            λ id hid.
                group_payloads-decoded_rows parse parse_uuid k workspace_of to_vec now (r ∷ rs)
                  groups id w.offset_counter reads grouped fit hid,
          ),
        )
