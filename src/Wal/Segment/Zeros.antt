-- ===== src/Wal/Segment/Zeros.antt =====
-- segment.rs and record.rs: a segment whose tail is filled with zeros.
use zradar.Base.{
  ℕ, zero, suc, ◌-◌, ◌^◌, ◌≤◌, ◌<◌, ◌≡◌, refl, ap, ◌∙◌, List, [], ◌++◌, append-nil, length, take,
  drop, drop-append, length-append, arith, replicate,
}
use zradar.Base.Bytes.{Bytes, from_be}
use zradar.Wal.Record.{WalRecord}
use zradar.Wal.Record.Bounds.{deserialize_panics}
use zradar.Wal.Segment.{SegmentReader, panic, header, next_record, segment_header_size}
use zradar.Wal.Segment.Scan.{panicked, scan_fuel, scan}
use zradar.Wal.Segment.Frames.{AllWire, frames, prepend, scan-frames_then}

length-replicate : (n : ℕ) (b : ℕ) → length (replicate n b) ≡ n
length-replicate zero b = refl
length-replicate (suc n) b = ap suc (length-replicate n b)

zero_prefix : (n : ℕ) → 4 ≤ n → from_be 0 (take 4 (replicate n 0)) ≡ 0
unfolding from_be
zero_prefix (suc (suc (suc (suc n)))) h = refl
zero_prefix _ h = absurd (omega arith)

module _ (crc32 : Bytes → ℕ) where
  next_record_zeros :
      (r : SegmentReader) (good : Bytes) (n : ℕ)
      → r.input ≡ good ++ replicate n 0
      → r.pos ≡ length good
      → 4 ≤ n
      → next_record crc32 r ≡ panic
  unfolding next_record
  next_record_zeros r good n e at h =
      let tail : drop r.pos r.input ≡ replicate n 0 =
        (λ i. drop (at i) (e i)) ∙ drop-append (length good) good (replicate n 0) refl in
      let size = length-replicate n 0 in
      let first = zero_prefix n h in
      let panics =
        deserialize_panics crc32 (replicate n 0) r.pos (omega (arith, first, size))
          (omega (arith, first)) in
      rw (tail, panics) (ground (arith, ap length e, length-append good (replicate n 0), size, at))

  scan_fuel_panic :
      (fuel : ℕ) (r : SegmentReader)
      → next_record crc32 r ≡ panic
      → scan_fuel crc32 (suc fuel) r ≡ record { records = []; ended = panicked; position = r.pos }
  unfolding scan_fuel
  scan_fuel_panic fuel r h = rw (h, scan_fuel)

module _ (crc32 : Bytes → ℕ) (crc32_u32 : (b : Bytes) → crc32 b < 256 ^ 4) where
  -- Whole records with four or more zero bytes behind them, as a crash may leave them in the file: the
  -- loop reads the records and then panics where the zeros begin, with no torn-write error that would
  -- have the tail cut off.
  pub scan-frames_zeros :
      (id : ℕ) (rs : List WalRecord) (n : ℕ)
      → AllWire rs
      → 4 ≤ n
      → let good = header id ++ frames crc32 rs in
        let file = good ++ replicate n 0 in
        scan crc32 (record { input = file; segment_id = id; pos = segment_header_size })
        ≡ record { records = rs; ended = panicked; position = length good }
  unfolding prepend
  scan-frames_zeros id rs n w h =
      let good = header id ++ frames crc32 rs in
      let file = good ++ replicate n 0 in
      let r : SegmentReader = record { input = file; segment_id = id; pos = length good } in
      let stops = next_record_zeros crc32 r good n refl refl h in
      scan-frames_then crc32 crc32_u32 id rs (replicate n 0) w
      ∙ ap (prepend rs) (scan_fuel_panic crc32 (length file - length rs) r stops)
      ∙ λ i. record { records = append-nil rs i; ended = panicked; position = length good }
