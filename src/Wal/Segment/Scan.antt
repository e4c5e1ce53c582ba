-- ===== src/Wal/Segment/Scan.antt =====
-- The loop around `next_record` that `Wal::open`, `WalFlusher::flush_once` and `WalReplayer::replay`
-- share: the records it sees, how it ends, and where the reader then stands (`truncation_point`).
use zradar.Base.{
  ℕ, ◌^◌, zero, suc, ◌+◌, ◌≤◌, ◌<◌, ◌≡◌, ◌≢◌, refl, ap, ◌⊎◌, inl, inr, List, [], ◌∷◌, ◌++◌, length,
  take, drop, arith, length-append, length-drop, length-take, drop-append, ltb, if◌then◌else◌,
}
use zradar.Base.Bytes.{Bytes}
use zradar.Wal.Record.{
  WalRecord, IsWire, RecordReadError, torn_write_incomplete, torn_write_truncated, serialize,
  deserialize, Outcome,
}
use zradar.Wal.Record.Bounds.{deserialize_size}
use zradar.Wal.Record.Roundtrip.{
  deserialize-serialize, deserialize-take, length-serialize, le-body_len,
}
use zradar.Wal.Segment.{SegmentReader, Next, read, eof, torn, panic, next_record}

Outcome-cases :
    (o : Outcome (WalRecord × ℕ))
    → ((rec : WalRecord) × (n : ℕ) × (o ≡ Outcome.ok (rec, n)))
      ⊎ ((o ≡ Outcome.panic) ⊎ ((e : RecordReadError) × (o ≡ Outcome.err e)))
Outcome-cases (Outcome.ok (rec, n)) = inl (rec, n, refl)
Outcome-cases (Outcome.err e) = inr (inr (e, refl))
Outcome-cases Outcome.panic = inr (inl refl)

Next-cases :
    (n : Next)
    → ((rec : WalRecord) × (r : SegmentReader) × (n ≡ read rec r))
      ⊎ ((n ≡ eof) ⊎ ((n ≡ panic) ⊎ ((e : RecordReadError) × (n ≡ torn e))))
Next-cases (read rec r) = inl (rec, r, refl)
Next-cases eof = inr (inl refl)
Next-cases panic = inr (inr (inl refl))
Next-cases (torn e) = inr (inr (inr (e, refl)))

pub data End : Type 0 where
  clean : End
  torn_write : RecordReadError → End
  panicked : End
  out_of_fuel : End

pub record Scan : Type 0 where
  pub records : List WalRecord
  pub ended : End
  pub position : ℕ

unfoldable pub push : WalRecord → Scan → Scan
push rec s = record s { records = rec ∷ s.records }

module _ (crc32 : Bytes → ℕ) where
  unfoldable pub scan_fuel : ℕ → SegmentReader → Scan
  unfolding push
  scan_fuel zero r = record { records = []; ended = out_of_fuel; position = r.pos }
  scan_fuel (suc fuel) r = elim (next_record crc32 r) [
    | read rec r' ↦ push rec (scan_fuel fuel r')
    | eof ↦ record { records = []; ended = clean; position = r.pos }
    | torn e ↦ record { records = []; ended = torn_write e; position = r.pos }
    | panic ↦ record { records = []; ended = panicked; position = r.pos }
  ]

  -- One round for each byte, and one to see the end.
  unfoldable pub scan : SegmentReader → Scan
  scan r = scan_fuel (suc (length r.input)) r

  next_record_moves :
      (r r' : SegmentReader) (rec : WalRecord)
      → next_record crc32 r ≡ read rec r'
      → (r'.input ≡ r.input) × (r.pos < r'.pos) × (r'.pos ≤ length r.input)
  unfolding next_record
  next_record_moves r r' rec h =
      elim (Outcome-cases (deserialize crc32 (drop r.pos r.input) r.pos)) [
        | inl (rec', n, e) ↦ ground (
          arith,
          e,
          deserialize_size crc32 (drop r.pos r.input) r.pos rec' n e,
          length-drop r.pos r.input,
        )
        | inr none_read ↦ ground (arith, none_read)
      ]

  pub scan_fuel_read :
      (fuel : ℕ) (r r' : SegmentReader) (rec : WalRecord)
      → next_record crc32 r ≡ read rec r'
      → scan_fuel (suc fuel) r ≡ push rec (scan_fuel fuel r')
  unfolding scan_fuel
  scan_fuel_read fuel r r' rec e = rw (e, scan_fuel)

  pub scan_fuel_stop :
      (fuel : ℕ) (r : SegmentReader)
      → (next_record crc32 r ≡ eof
          → scan_fuel (suc fuel) r ≡ record { records = []; ended = clean; position = r.pos })
        × ((e : RecordReadError)
            → next_record crc32 r ≡ torn e
            → scan_fuel (suc fuel) r
              ≡ record { records = []; ended = torn_write e; position = r.pos })
  unfolding scan_fuel
  scan_fuel_stop fuel r = (λ h. rw (h, scan_fuel), λ e h. rw (h, scan_fuel))

  pub next_record_at_end : (r : SegmentReader) → r.pos ≡ length r.input → next_record crc32 r ≡ eof
  unfolding next_record
  next_record_at_end r h = ground arith

  -- A strict prefix of a record at the position is a torn write.
  pub next_record_torn :
      ((b : Bytes) → crc32 b < 256 ^ 4)
      → (r : SegmentReader) (rec : WalRecord) (pre : Bytes) (k : ℕ) → IsWire rec
      → r.input ≡ pre ++ take k (serialize crc32 rec)
      → r.pos ≡ length pre
      → 0 < k
      → k < length (serialize crc32 rec)
      → next_record crc32 r
        ≡ torn (
            if ltb k 4
            then torn_write_incomplete r.pos
            else torn_write_truncated r.pos (length (serialize crc32 rec)) k)
  unfolding next_record
  next_record_torn bound r rec pre k w e at more lt =
      let torn_off : Bytes = take k (serialize crc32 rec) in
      let size = length-append pre torn_off in
      let here : drop r.pos r.input ≡ torn_off =
        rw (e, at) (drop-append (length pre) pre torn_off refl) in
      ground (
        arith,
        here,
        ap (λ (l : Bytes). length l) e,
        ap (λ (l : Bytes). length l) here,
        size,
        length-take k (serialize crc32 rec),
        deserialize-take crc32 bound rec k r.pos w lt,
      )

  -- Whatever the bytes are, the loop ends before its fuel does.
  pub scan_fuel_ends :
      (fuel : ℕ) (r : SegmentReader)
      → r.pos ≤ length r.input
      → length r.input < r.pos + fuel
      → (scan_fuel fuel r).ended ≢ out_of_fuel
  unfolding push
  scan_fuel_ends zero r p h = absurd (omega arith)
  scan_fuel_ends (suc fuel) r p h = elim (Next-cases (next_record crc32 r)) [
    | inl (rec, r', e) ↦
        let (same, on, within) = next_record_moves r r' rec e in
        rw (scan_fuel_read fuel r r' rec e) (
          scan_fuel_ends fuel r' (rw same within) (
            let size : length r'.input ≡ length r.input = ap (λ (l : Bytes). length l) same in
            omega arith))
    | inr other ↦ unfold scan_fuel in ground (arith, other)
  ]

  -- The reader stands behind what it read.
  pub scan_fuel_position :
      (fuel : ℕ) (r : SegmentReader)
      → r.pos ≤ length r.input
      → (r.pos ≤ (scan_fuel fuel r).position) × ((scan_fuel fuel r).position ≤ length r.input)
  unfolding push
  scan_fuel_position zero r p = unfold scan_fuel in omega arith
  scan_fuel_position (suc fuel) r p = elim (Next-cases (next_record crc32 r)) [
    | inl (rec, r', e) ↦
        let (same, on, within) = next_record_moves r r' rec e in
        let size : length r'.input ≡ length r.input = ap (λ (l : Bytes). length l) same in
        rw (scan_fuel_read fuel r r' rec e)
          (omega (arith, scan_fuel_position fuel r' (rw same within)))
    | inr other ↦ unfold scan_fuel in ground (arith, other)
  ]

  -- A whole record at the position is read, and the reader moves behind it.
  pub next_record-serialize :
      ((b : Bytes) → crc32 b < 256 ^ 4)
      → (r : SegmentReader) (rec : WalRecord) (pre rest : Bytes) → IsWire rec
      → r.input ≡ pre ++ (serialize crc32 rec ++ rest)
      → r.pos ≡ length pre
      → next_record crc32 r ≡ read rec (record r { pos = r.pos + length (serialize crc32 rec) })
  unfolding next_record
  next_record-serialize bound r rec pre rest w e at =
      let size = length-append pre (serialize crc32 rec ++ rest) in
      let size' = length-append (serialize crc32 rec) rest in
      let here : drop r.pos r.input ≡ serialize crc32 rec ++ rest =
        rw (e, at) (drop-append (length pre) pre _ refl) in
      ground (
        arith,
        here,
        ap (λ (l : Bytes). length l) e,
        ap (λ (l : Bytes). length l) here,
        size,
        size',
        length-serialize crc32 bound rec w,
        le-body_len rec,
        deserialize-serialize crc32 bound rec rest r.pos w,
      )

  -- The loop of a reader that stands inside its file ends of itself, on any bytes, at a position
  -- inside the file.
  pub scan_ends :
      (r : SegmentReader)
      → r.pos ≤ length r.input
      → ((scan r).ended ≢ out_of_fuel)
        × (r.pos ≤ (scan r).position)
        × ((scan r).position ≤ length r.input)
  unfolding scan
  scan_ends r within =
      let (after, inside) = scan_fuel_position (suc (length r.input)) r within in
      (scan_fuel_ends (suc (length r.input)) r within (omega arith), after, inside)
