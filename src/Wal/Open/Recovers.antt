-- ===== src/Wal/Open/Recovers.antt =====
-- lib.rs: `Wal::open` gives back what was whole, also behind a torn write, and goes on above it.
use zradar.Base.{
  ℕ, zero, suc, ◌+◌, ◌%◌, ◌^◌, ◌≤◌, ◌<◌, ◌≡◌, ◌∙◌, refl, sym, ap, inl, inr, Option, none, some,
  List, [], ◌∷◌, ◌++◌, append_assoc, append-nil, take-append, length-append, length, take,
  get_last?, max, ltb, leb, Bool, true, false, Bool-cases, arith, if◌then◌else◌,
}
use zradar.Base.Bytes.{Bytes}
use zradar.Wal.Record.{WalRecord, IsWire, serialize, torn_write_incomplete, torn_write_truncated}
use zradar.Wal.Segment.{segment_header_size, header, open_path, truncate_segment}
use zradar.Wal.Segment.Frames.{
  frames, length-header, open_path-header, scan-frames, scan-frames_cut,
}
use zradar.Wal.Segment.Scan.{scan}
use zradar.Wal.Dir.{Dir, put_file}
use zradar.Wal.Dir.Laws.{AllBelow}
use zradar.Wal.Disk.{Probe}
use zradar.Wal.Log.{Wal, created, create_segment, seal}
use zradar.Wal.Log.View.{
  Segment, IsSegment, AllSegments, all_records, files, file_of, contents, contents-IsLog, IsLog,
}
use zradar.Wal.Log.Append.{seal-contents}
use zradar.Wal.Open.{
  WalConfig, max_offset_from, Recovered, is_torn_write, recover_torn, recover_opened, recover_end,
  recover_segment, Reopened, opened_on, open_last, open_from, open_wal,
}

abbrev pub OffsetsBelow : ℕ → List WalRecord → Type 0
OffsetsBelow n [] = Unit
OffsetsBelow n (r ∷ rs) = (r.assigned_offset < n) × OffsetsBelow n rs

max_offset_from-ge : (m : ℕ) (rs : List WalRecord) → m ≤ max_offset_from m rs
unfolding max_offset_from
max_offset_from-ge m [] = omega arith
max_offset_from-ge m (r ∷ rs) = omega (arith, max_offset_from-ge (max m r.assigned_offset) rs)

max_offset_from-OffsetsBelow :
    (m n : ℕ) (rs : List WalRecord) → max_offset_from m rs < n → OffsetsBelow n rs
unfolding max_offset_from
max_offset_from-OffsetsBelow m n [] h = tt
max_offset_from-OffsetsBelow m n (r ∷ rs) h = (
  omega (arith, max_offset_from-ge (max m r.assigned_offset) rs),
  max_offset_from-OffsetsBelow (max m r.assigned_offset) n rs h,
)

get_last?-append : (d : Dir) (f : ℕ × Bytes) → get_last? (d ++ f ∷ []) ≡ some f
get_last?-append [] f = refl
get_last?-append (g ∷ []) f = refl
get_last?-append (g ∷ h ∷ d) f = get_last?-append (h ∷ d) f

put_file_last :
    (id : ℕ) (b c : Bytes) (d : Dir)
    → AllBelow id d
    → put_file id b (d ++ (id, c) ∷ []) ≡ d ++ (id, b) ∷ []
unfolding put_file
put_file_last id b c [] a = ground arith
put_file_last id b c ((j, e) ∷ d) a = ground (arith, put_file_last id b c d a.1)

recover_torn-torn :
    (file : Bytes) (max_offset trunc_point k need : ℕ)
    → recover_torn file max_offset trunc_point (
        if ltb k 4
        then torn_write_incomplete trunc_point
        else torn_write_truncated trunc_point need k)
      ≡ Recovered.ok max_offset (take trunc_point file)
unfolding recover_torn is_torn_write truncate_segment
recover_torn-torn file m t k need = elim (Bool-cases (ltb k 4)) [
  | inl e ↦ rw e refl
  | inr e ↦ rw e refl
]

module _ (crc32 : Bytes → ℕ) (crc32_u32 : (b : Bytes) → crc32 b < 256 ^ 4) where
  recover_segment-file_of :
      (s : Segment)
      → IsSegment s
      → recover_segment crc32 (file_of crc32 s).1
        ≡ Recovered.ok (max_offset_from 0 s.records) (file_of crc32 s).1
  unfolding recover_segment recover_opened recover_end file_of
  recover_segment-file_of s h =
      let file = header s.id ++ frames crc32 s.records in
      ap (recover_opened crc32 file) (open_path-header s.id (frames crc32 s.records) h.id_64)
      ∙ ap (recover_end file) (scan-frames crc32 crc32_u32 s.id s.records h.wire)

  recover_segment-cut :
      (s : Segment) (rec : WalRecord) (k : ℕ)
      → IsSegment s
      → IsWire rec
      → 0 < k
      → k < length (serialize crc32 rec)
      → recover_segment crc32
          ((header s.id ++ frames crc32 s.records) ++ take k (serialize crc32 rec))
        ≡ Recovered.ok (max_offset_from 0 s.records) (file_of crc32 s).1
  unfolding recover_segment recover_opened recover_end file_of recover_torn truncate_segment
  recover_segment-cut s rec k h wire pos lt =
      let good = header s.id ++ frames crc32 s.records in
      let cut = take k (serialize crc32 rec) in
      let assoc = append_assoc (header s.id) (frames crc32 s.records) cut in
      ap (λ (f : Bytes). recover_opened crc32 f (open_path f)) assoc
      ∙ ap (recover_opened crc32 (header s.id ++ (frames crc32 s.records ++ cut)))
          (open_path-header s.id (frames crc32 s.records ++ cut) h.id_64)
      ∙ ap
          (λ (f : Bytes).
            recover_end f
              (scan crc32 (record { input = f; segment_id = s.id; pos = segment_header_size })))
          (sym assoc)
      ∙ ap (recover_end (good ++ cut))
          (scan-frames_cut crc32 crc32_u32 s.id s.records rec k h.wire wire pos lt)
      ∙ recover_torn-torn (good ++ cut) (max_offset_from 0 s.records) (length good) k
          (length (serialize crc32 rec))
      ∙ ap (λ (f : Bytes). Recovered.ok (max_offset_from 0 s.records) f)
          (take-append (length good) good cut refl)

  -- The last file, with `k` bytes of one more record, which may be none.
  recover_segment-tail :
      (s : Segment) (rec : WalRecord) (k : ℕ)
      → IsSegment s
      → IsWire rec
      → k < length (serialize crc32 rec)
      → recover_segment crc32
          ((header s.id ++ frames crc32 s.records) ++ take k (serialize crc32 rec))
        ≡ Recovered.ok (max_offset_from 0 s.records) (file_of crc32 s).1
  recover_segment-tail s rec zero h wire lt =
      ap (recover_segment crc32) (append-nil (header s.id ++ frames crc32 s.records))
      ∙ (unfold file_of in recover_segment-file_of s h)
  recover_segment-tail s rec (suc k) h wire lt =
      recover_segment-cut s rec (suc k) h wire (omega arith) lt

  -- The log after the last segment was opened, before a full one is sealed.
  abbrev reopened : Probe → WalConfig → Option ℕ → List Segment → Segment → Bytes → Wal
  reopened p config current older active file =
      opened_on crc32 p config current
        (put_file active.id (file_of crc32 active).1 (files crc32 older ++ (active.id, file) ∷ []))
        (record { segment_id = active.id; current_size = length (file_of crc32 active).1 })
        ((max_offset_from 0 active.records + 1) % 2 ^ 64)

  reopened-IsLog :
      (p : Probe) (config : WalConfig) (current : Option ℕ) (older : List Segment)
      (active : Segment) (file : Bytes)
      → AllSegments older
      → IsSegment active
      → AllBelow active.id (files crc32 older)
      → (h : IsLog crc32 (reopened p config current older active file)) × (h.older ≡ older)
        × (h.active ≡ active)
  unfolding opened_on
  reopened-IsLog p config current older active file ho ha below = (
    record {
      older = older;
      active = active;
      older_wire = ho;
      active_wire = ha;
      on_disk =
          put_file_last active.id (file_of crc32 active).1 file (files crc32 older) below
          ∙ (unfold file_of in refl);
      below = below;
      writer_id = refl;
      writer_size =
          unfold file_of in
          (length-append (header active.id) (frames crc32 active.records)
            ∙ ap (λ (n : ℕ). n + length (frames crc32 active.records)) (length-header active.id));
    },
    refl,
    refl,
  )

  next_if_full :
      (full : Bool) (w0 : Wal)
      → (h0 : IsLog crc32 w0) → h0.active.id + 1 < 256 ^ 8
      → let w =
          if full then (create_segment created none (w0.writer.segment_id + 1) w0).0 else w0 in
        IsLog crc32 w
        × (contents crc32 w.dir ≡ contents crc32 w0.dir)
        × (w.offset_counter ≡ w0.offset_counter)
  unfolding seal create_segment
  next_if_full true w0 h0 room =
      let (after, same) = seal-contents crc32 crc32_u32 w0 h0 room in (after, same, refl)
  next_if_full false w0 h0 room = (h0, refl, refl)

  -- A log that ends in a torn record, or in none, is opened as the log of its whole records: a reader
  -- sees them, the writer stands behind them, and the next offset is one above the highest of the
  -- last segment, or 1 where that segment is empty.
  pub open_wal-recovers :
      (p : Probe) (config : WalConfig) (current : Option ℕ) (older : List Segment)
      (active : Segment) (rec : WalRecord) (k : ℕ)
      → AllSegments older
      → IsSegment active
      → AllBelow active.id (files crc32 older)
      → active.id + 1 < 256 ^ 8
      → max_offset_from 0 active.records + 1 < 2 ^ 64
      → IsWire rec
      → k < length (serialize crc32 rec)
      → let torn = take k (serialize crc32 rec) in
        let file = (header active.id ++ frames crc32 active.records) ++ torn in
        let dir = files crc32 older ++ (active.id, file) ∷ [] in
        (w : Wal) × (open_wal crc32 p config current dir ≡ Reopened.ok w)
        × IsLog crc32 w
        × (contents crc32 w.dir ≡ all_records older ++ active.records)
        × OffsetsBelow w.offset_counter active.records
        × (w.offset_counter ≡ max_offset_from 0 active.records + 1)
  unfolding open_wal open_from open_last opened_on
  open_wal-recovers p config current older active rec k ho ha below room room64 wire lt =
      let file =
        (header active.id ++ frames crc32 active.records) ++ take k (serialize crc32 rec) in
      let dir : Dir = files crc32 older ++ (active.id, file) ∷ [] in
      let m = max_offset_from 0 active.records in
      let w0 = reopened p config current older active file in
      let (h0, eo, ea) = reopened-IsLog p config current older active file ho ha below in
      let full = leb config.segment_max_bytes (length (file_of crc32 active).1) in
      let (after, same, counter) = next_if_full full w0 h0 (rw ea room) in
      (
        _,
        ap (open_from crc32 p config current dir)
              (get_last?-append (files crc32 older) (active.id, file))
            ∙ ap (open_last crc32 p config current dir active.id)
                (recover_segment-tail active rec k ha wire lt),
        after,
        same ∙ contents-IsLog crc32 crc32_u32 w0 h0 ∙ (λ i. all_records (eo i) ++ (ea i).records),
        rw counter (max_offset_from-OffsetsBelow 0 _ active.records (omega arith)),
        rw counter (omega arith),
      )
