-- ===== src/Wal/Replay/Reads.antt =====
-- replay.rs: the replay of one segment that ends with a whole record, with a sink that works.
use zradar.Base.{
  ℕ, ◌+◌, ◌<◌, ◌≡◌, refl, sym, ap, ◌∙◌, ◌⊎◌, inl, inr, Option, List, [], ◌∷◌, ◌++◌, length,
  append-nil, arith, Bool, true, Bool-cases,
}
use zradar.Base.Bytes.{Bytes}
use zradar.Wal.Checkpoint.{Checkpoint}
use zradar.Wal.Record.{WalRecord}
use zradar.Wal.Segment.Scan.{Scan, clean}
use zradar.Wal.Flusher.{batch_of}
use zradar.Wal.Replay.{
  ReplayState, Batch, empty_batch, is_empty, Ended, go_on, stop, failed, panic, then_go,
  take_records, send_rest, end_records, replay_read, send_batch,
}
use zradar.Wal.Replay.Segments.{Rising, Good, take_records_sent, take_records-first}

is_empty-nil : (rs : List WalRecord) → is_empty rs ≡ true → rs ≡ []
is_empty-nil [] h = refl
is_empty-nil (r ∷ rs) h = cc

module _ (sink_ok : List WalRecord → Bool) (max_bytes : ℕ)
    (sends : (batch : List WalRecord) → sink_ok batch ≡ true) where
  send_rest_sent :
      (id : ℕ) (s : ReplayState) (b : Batch)
      → let (sb', ended) = send_rest sink_ok max_bytes id (s, b) in
        (ended ≡ go_on)
        × (sb'.0.confirmed ≡ s.confirmed ++ b.records)
        × (sb'.0.total_replayed ≡ s.total_replayed + length b.records)
        × (sb'.0.dir ≡ s.dir)
  unfolding send_rest send_batch
  send_rest_sent id s b = elim (Bool-cases (is_empty b.records)) [
    | inl nothing ↦
        rw (is_empty-nil b.records nothing) (refl, sym (append-nil s.confirmed), omega arith, refl)
    | inr more ↦ rw (more, sends b.records) (refl, refl, refl, refl)
  ]

  read_clean :
      (id : ℕ) (file : Bytes) (read : Scan) (out : (ReplayState × Batch) × Ended)
      → read.ended ≡ clean
      → out.1 ≡ go_on
      → then_go
          (then_go out (end_records sink_ok max_bytes id file read))
          (send_rest sink_ok max_bytes id)
        ≡ send_rest sink_ok max_bytes id out.0
  unfolding then_go end_records
  read_clean id file read ((s, b), go_on) whole h = rw whole refl
  read_clean id file read ((s, b), stop) whole h = cc
  read_clean id file read ((s, b), failed) whole h = cc
  read_clean id file read ((s, b), panic) whole h = cc

  replay_read-clean :
      (start : Option Checkpoint) (id : ℕ) (file : Bytes) (read : Scan) (s : ReplayState)
      → read.ended ≡ clean
      → replay_read sink_ok max_bytes start id file read s ≡ (
          let out = take_records sink_ok max_bytes start id read.records (s, empty_batch) in
          let (sb, ended) = send_rest sink_ok max_bytes id out.0 in (sb.0, ended))
  unfolding replay_read
  replay_read-clean start id file read s whole =
      ap (λ (out : (ReplayState × Batch) × Ended). (out.0.0, out.1))
        (read_clean id file read
          (take_records sink_ok max_bytes start id read.records (s, empty_batch)) whole
          (take_records_sent sink_ok max_bytes sends start id read.records s empty_batch).0)

  -- The replay of a segment that ends with a whole record sends what lies behind the checkpoint.
  pub replay_read_sent :
      (start : Option Checkpoint) (id : ℕ) (file : Bytes) (rs : List WalRecord) (position : ℕ)
      (m : ℕ) (s : ReplayState)
      → Rising m rs
      → let read : Scan = record { records = rs; ended = clean; position = position } in
        let (s', ended) = replay_read sink_ok max_bytes start id file read s in
        (ended ≡ go_on)
        × (s'.confirmed ≡ s.confirmed ++ batch_of start id rs)
        × (s'.total_replayed ≡ s.total_replayed + length (batch_of start id rs))
        × (s'.dir ≡ s.dir)
        × (((batch_of start id rs ≡ []) × (s' ≡ s))
            ⊎ ((0 < length (batch_of start id rs)) × Good id m rs s'))
  replay_read_sent start id file rs position m s up =
      let out = take_records sink_ok max_bytes start id rs (s, empty_batch) in
      let read : Scan = record { records = rs; ended = clean; position = position } in
      let (on, same, count, kept) =
        take_records_sent sink_ok max_bytes sends start id rs s empty_batch in
      let (on', same', count', kept') = send_rest_sent id out.0.0 out.0.1 in
      rw (replay_read-clean start id file read s refl) (
        on',
        same'
            ∙ same
            ∙ ap (λ (l : List WalRecord). l ++ batch_of start id rs) (append-nil s.confirmed),
        count' ∙ count ∙ omega arith,
        kept' ∙ kept,
        take_records-first sink_ok max_bytes sends start id rs m s up,
      )
