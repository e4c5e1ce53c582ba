-- ===== src/Wal/Segment/Frames.antt =====
-- segment.rs: a file of whole records is read back; a torn record at its end is cut off exactly.
use zradar.Base.{
  ltb, if◌then◌else◌, ℕ, zero, suc, ◌+◌, ◌-◌, ◌^◌, ◌≤◌, ◌<◌, ◌≡◌, refl, sym, ◌∙◌, ap, List, [], ◌∷◌,
  ◌++◌, append_assoc, append-nil, length, take, arith, length-append, take-append,
}
use zradar.Base.Bytes.{Bytes, to_be, from_be, bytes_eq, length-to_be, from_be-to_be}
use zradar.Wal.Record.{
  WalRecord, IsWire, serialize, RecordReadError, torn_write_incomplete, torn_write_truncated,
}
use zradar.Wal.Record.Roundtrip.{length-serialize}
use zradar.Wal.Segment.{
  SegmentReader, Opened, header, open_path, truncate_segment, segment_header_size,
}
use zradar.Wal.Segment.Scan.{
  Scan, clean, torn_write, push, scan_fuel, scan, scan_fuel_read, next_record-serialize,
  scan_fuel_stop, next_record_at_end, next_record_torn,
}

abbrev pub AllWire : List WalRecord → Type 0
AllWire [] = Unit
AllWire (r ∷ rs) = IsWire r × AllWire rs

module _ (crc32 : Bytes → ℕ) where
  -- What a run of `append` calls leaves behind the header.
  unfoldable pub frames : List WalRecord → Bytes
  frames [] = []
  frames (r ∷ rs) = serialize crc32 r ++ frames rs

-- The header that `create` writes is accepted, with its id.
pub open_path-header :
    (id : ℕ) (body : Bytes)
    → id < 256 ^ 8
    → open_path (header id ++ body)
      ≡ Opened.ok (record { input = header id ++ body; segment_id = id; pos = segment_header_size })
unfolding open_path header bytes_eq from_be
open_path-header id body fits =
    let len = length-to_be 8 id in
    simp (take-append 8 (to_be 8 id) body len, from_be-to_be 8 id fits)
      (ground (arith, length-append (to_be 8 id) body, len))

pub length-header : (id : ℕ) → length (header id) ≡ segment_header_size
unfolding header
length-header id = omega (arith, length-to_be 8 id)

unfoldable pub prepend : List WalRecord → Scan → Scan
prepend rs s = record s { records = rs ++ s.records }

module _ (crc32 : Bytes → ℕ) (crc32_u32 : (b : Bytes) → crc32 b < 256 ^ 4) where
  -- The loop takes one round for each whole record, and goes on behind them.
  scan_fuel-frames :
      (rs : List WalRecord) (fuel rounds : ℕ) (r : SegmentReader) (pre rest : Bytes) (q : ℕ)
      → AllWire rs
      → r.input ≡ pre ++ (frames crc32 rs ++ rest)
      → r.pos ≡ length pre
      → rounds ≡ length rs + fuel
      → q ≡ length pre + length (frames crc32 rs)
      → scan_fuel crc32 rounds r ≡ prepend rs (scan_fuel crc32 fuel (record r { pos = q }))
  unfolding frames prepend
  scan_fuel-frames [] fuel rounds r pre rest q w e at n to =
      let same_fuel : rounds ≡ fuel = omega arith in
      let same_pos : r.pos ≡ q = omega arith in
      λ i. scan_fuel crc32 (same_fuel i) (record r { pos = same_pos i })
  scan_fuel-frames (rec ∷ rs) fuel zero r pre rest q w e at n to = absurd (omega arith)
  scan_fuel-frames (rec ∷ rs) fuel (suc rounds) r pre rest q w e at n to =
      let one = serialize crc32 rec in
      let r' : SegmentReader = record r { pos = r.pos + length one } in
      let here : r.input ≡ pre ++ (one ++ (frames crc32 rs ++ rest)) =
        e ∙ ap (λ (l : Bytes). pre ++ l) (append_assoc one (frames crc32 rs) rest) in
      let next =
        next_record-serialize crc32 crc32_u32 r rec pre (frames crc32 rs ++ rest) w.0 here at in
      scan_fuel_read crc32 rounds r r' rec next
      ∙ ap (push rec) (
          scan_fuel-frames rs fuel rounds r' (pre ++ one) rest q w.1
            (here ∙ sym (append_assoc pre one (frames crc32 rs ++ rest)))
            (omega (arith, length-append pre one)) (omega arith)
            (omega (arith, length-append pre one, length-append one (frames crc32 rs))))
      ∙ (unfold push in refl)

  length-le-frames : (rs : List WalRecord) → AllWire rs → length rs ≤ length (frames crc32 rs)
  unfolding frames
  length-le-frames [] w = omega arith
  length-le-frames (rec ∷ rs) w = omega (
    arith,
    length-append (serialize crc32 rec) (frames crc32 rs),
    length-serialize crc32 crc32_u32 rec w.0,
    length-le-frames rs w.1,
  )

  -- From behind the header the loop reads the whole records and goes on behind them.
  pub scan-frames_then :
      (id : ℕ) (rs : List WalRecord) (rest : Bytes)
      → AllWire rs
      → let good = header id ++ frames crc32 rs in
        let file = good ++ rest in
        scan crc32 (record { input = file; segment_id = id; pos = segment_header_size })
        ≡ prepend rs (
            scan_fuel crc32
              (suc (length file - length rs))
              (record { input = file; segment_id = id; pos = length good }))
  unfolding scan
  scan-frames_then id rs rest w =
      scan_fuel-frames rs _ _ _ (header id) rest _ w
        (append_assoc (header id) (frames crc32 rs) rest) (sym (length-header id))
        (omega (
          arith,
          length-append (header id ++ frames crc32 rs) rest,
          length-append (header id) (frames crc32 rs),
          length-le-frames rs w,
        ))
        (length-append (header id) (frames crc32 rs))

  -- A segment of whole records, read from behind its header: all of them, then a clean end.
  pub scan-frames :
      (id : ℕ) (rs : List WalRecord)
      → AllWire rs
      → let file = header id ++ frames crc32 rs in
        scan crc32 (record { input = file; segment_id = id; pos = segment_header_size })
        ≡ record { records = rs; ended = clean; position = length file }
  unfolding prepend
  scan-frames id rs w =
      let file = header id ++ frames crc32 rs in
      let r : SegmentReader = record { input = file; segment_id = id; pos = length file } in
      let then_end = scan-frames_then id rs [] w in
      rw append-nil at then_end
      ∙ ap (prepend rs) ((scan_fuel_stop crc32 _ r).0 (next_record_at_end crc32 r refl))
      ∙ λ i. record { records = append-nil rs i; ended = clean; position = length file }

  -- The same with a torn record behind them: the reader stops exactly where it begins, so that
  -- cutting the file there leaves the whole records.
  pub scan-frames_torn :
      (id : ℕ) (rs : List WalRecord) (rec : WalRecord) (k : ℕ)
      → AllWire rs
      → IsWire rec
      → 0 < k
      → k < length (serialize crc32 rec)
      → let good = header id ++ frames crc32 rs in
        let file = good ++ take k (serialize crc32 rec) in
        let s = scan crc32 (record { input = file; segment_id = id; pos = segment_header_size }) in
        (s.records ≡ rs)
        × ((e : RecordReadError) × (s.ended ≡ torn_write e))
        × (truncate_segment s.position file ≡ good)
  unfolding truncate_segment prepend
  scan-frames_torn id rs rec k w wr pos lt =
      let good = header id ++ frames crc32 rs in
      let cut = take k (serialize crc32 rec) in
      let r : SegmentReader = record { input = good ++ cut; segment_id = id; pos = length good } in
      let torn_here = next_record_torn crc32 crc32_u32 r rec good k wr refl refl pos lt in
      let stop = (scan_fuel_stop crc32 (length (good ++ cut) - length rs) r).1 _ torn_here in
      let whole = scan-frames_then id rs cut w ∙ ap (prepend rs) stop in
      (
        ap (λ (s : Scan). s.records) whole ∙ append-nil rs,
        (_, ap (λ (s : Scan). s.ended) whole),
        ap (λ (s : Scan). take s.position (good ++ cut)) whole
            ∙ take-append (length good) good cut refl,
      )

  -- The error names the torn record, and is one that recovery repairs.
  pub scan-frames_cut :
      (id : ℕ) (rs : List WalRecord) (rec : WalRecord) (k : ℕ)
      → AllWire rs
      → IsWire rec
      → 0 < k
      → k < length (serialize crc32 rec)
      → let good = header id ++ frames crc32 rs in
        let file = good ++ take k (serialize crc32 rec) in
        scan crc32 (record { input = file; segment_id = id; pos = segment_header_size }) ≡ record {
          records = rs;
          ended = torn_write (
              if ltb k 4
              then torn_write_incomplete (length good)
              else torn_write_truncated (length good) (length (serialize crc32 rec)) k);
          position = length good;
        }
  unfolding prepend
  scan-frames_cut id rs rec k w wr pos lt =
      let good = header id ++ frames crc32 rs in
      let cut = take k (serialize crc32 rec) in
      let r : SegmentReader = record { input = good ++ cut; segment_id = id; pos = length good } in
      let torn_here = next_record_torn crc32 crc32_u32 r rec good k wr refl refl pos lt in
      let stop = (scan_fuel_stop crc32 (length (good ++ cut) - length rs) r).1 _ torn_here in
      scan-frames_then id rs cut w ∙ ap (prepend rs) stop ∙ (λ i. record {
        records = append-nil rs i;
        ended = torn_write (
            if ltb k 4
            then torn_write_incomplete (length good)
            else torn_write_truncated (length good) (length (serialize crc32 rec)) k);
        position = length good;
      })
