-- ===== src/Wal/Log/Faulty.antt =====
-- lib.rs: `Wal::append` where a call to the disk fails.
use zradar.Base.{
  ℕ, zero, suc, ◌+◌, ◌%◌, ◌^◌, ◌<◌, ◌≡◌, refl, sym, ◌∙◌, ap, Option, none, some, List, [], ◌∷◌,
  ◌++◌, append_assoc, append-nil, length, take, take_all, length-take, arith, ltb, ltb_false→le,
  Bool-cases, inl, inr,
}
use zradar.Base.Bytes.{Bytes}
use zradar.Wal.AppendError.{AppendError, IoKind}
use zradar.Wal.Record.{WalRecord, IsWire, serialize}
use zradar.Wal.Segment.{header, open_path}
use zradar.Wal.Segment.Frames.{frames, length-header, open_path-header, scan-frames_torn}
use zradar.Wal.Dir.{put_file, append_file}
use zradar.Wal.Dir.Laws.{put_file_new, append_file_last}
use zradar.Wal.Disk.{Probe, admit}
use zradar.Wal.Log.{
  Wal, Faults, no_faults, created, not_opened, short_header, Create, Appended, stamp, rotates, seal,
  create_segment, write_bytes, write_unless, append_admitted, append_unless, append,
}
use zradar.Wal.Log.View.{
  read_segment, contents, contents-append, contents-files, files-append, Segment, IsSegment,
  all_records, file_of, files, IsLog, contents-IsLog, keep_log, read_segment-file_of,
}
use zradar.Wal.Log.Append.{below_next, seal-contents}

module _ (crc32 : Bytes → ℕ) (crc32_u32 : (b : Bytes) → crc32 b < 256 ^ 4) where
  -- A torn record at the end of a segment is not seen.
  read_segment_torn :
      (s : Segment) (r : WalRecord) (k : ℕ)
      → IsSegment s
      → IsWire r
      → k < length (serialize crc32 r)
      → read_segment crc32 (header s.id ++ frames crc32 s.records ++ take k (serialize crc32 r))
        ≡ s.records
  unfolding read_segment
  read_segment_torn s r zero h wire short =
      rw append-nil (unfold file_of read_segment in read_segment-file_of crc32 crc32_u32 s h)
  read_segment_torn s r (suc k) h wire short =
      rw
        (
          append_assoc,
          open_path-header s.id (frames crc32 s.records ++ take (suc k) (serialize crc32 r))
              h.id_64,
        )
        (rw (← append_assoc) (
          (scan-frames_torn crc32 crc32_u32 s.id s.records r (suc k) h.wire wire (omega arith)
            short).0))

  -- Nor is anything seen in a segment without records.
  read_segment_empty : (id : ℕ) → id < 256 ^ 8 → read_segment crc32 (header id) ≡ []
  unfolding frames file_of
  read_segment_empty id fits =
      let blank : read_segment crc32 (header id ++ []) ≡ [] =
        read_segment-file_of crc32 crc32_u32 (record { id = id; records = [] })
          (record { id_64 = fits; wire = tt }) in
      rw append-nil at blank

  -- Nor in a file whose header was cut short.
  read_segment-header : (id n : ℕ) → id < 256 ^ 8 → read_segment crc32 (take n (header id)) ≡ []
  unfolding read_segment
  read_segment-header id n fits = elim (Bool-cases (ltb n 13)) [
    | inl cut ↦ unfold open_path in ground (arith, length-take n (header id), length-header id)
    | inr whole ↦
        rw (take_all n (header id) (omega (arith, length-header id, ltb_false→le n 13 whole)))
          (read_segment_empty id fits)
  ]

  -- A file that shows no record, behind the newest segment.
  put_next-contents :
      (b : Bytes) (w : Wal)
      → IsLog crc32 w
      → read_segment crc32 b ≡ []
      → contents crc32 (put_file (w.writer.segment_id + 1) b w.dir) ≡ contents crc32 w.dir
  unfolding contents
  put_next-contents b w h blank =
      let whole = h.on_disk ∙ sym (files-append crc32 crc32_u32 h.older h.active) in
      ap (contents crc32) (
        (λ i. put_file (h.writer_id i + 1) b (whole i))
        ∙ put_file_new (h.active.id + 1) b _ (below_next crc32 crc32_u32 w h)
        ∙ (λ i. (sym whole) i ++ (h.active.id + 1, b) ∷ []))
      ∙ contents-append crc32 crc32_u32 w.dir ((h.active.id + 1, b) ∷ [])
      ∙ ap (λ (l : List WalRecord). contents crc32 w.dir ++ l) (append-nil _ ∙ blank)
      ∙ append-nil _

  create_segment-contents :
      (c : Create) (l : Option IoKind) (w : Wal)
      → (h : IsLog crc32 w) → h.active.id + 1 < 256 ^ 8
      → contents crc32 (create_segment c l (w.writer.segment_id + 1) w).0.dir ≡ contents crc32 w.dir
  unfolding create_segment
  create_segment-contents created none w h room =
      put_next-contents (header (w.writer.segment_id + 1)) w h
        (read_segment_empty (w.writer.segment_id + 1) (omega (arith, h.writer_id)))
  create_segment-contents created (some k) w h room =
      put_next-contents (header (w.writer.segment_id + 1)) w h
        (read_segment_empty (w.writer.segment_id + 1) (omega (arith, h.writer_id)))
  create_segment-contents (not_opened k) l w h room = refl
  create_segment-contents (short_header n k) l w h room =
      put_next-contents (take n (header (w.writer.segment_id + 1))) w h
        (read_segment-header (w.writer.segment_id + 1) n (omega (arith, h.writer_id)))

  -- Sealing shows and hides nothing, whatever fails on the way.
  seal_fault-contents :
      (e : Option IoKind) (f : Faults) (w : Wal)
      → (h : IsLog crc32 w) → h.active.id + 1 < 256 ^ 8
      → contents crc32 (seal e f w).0.dir ≡ contents crc32 w.dir
  unfolding seal
  seal_fault-contents (some k) f w h room = refl
  seal_fault-contents none f w h room = create_segment-contents f.create f.symlink w h room

  -- Sealing without an error is sealing without a fault.
  seal_succeeds :
      (e : Option IoKind) (f : Faults) (w : Wal)
      → (seal e f w).1 ≡ none
      → seal e f w ≡ seal none no_faults w
  unfolding seal
  seal_succeeds e f w h = ground arith

  write_short-contents :
      (r : WalRecord) (n : ℕ) (w : Wal)
      → IsWire r
      → IsLog crc32 w
      → n < length (serialize crc32 r)
      → contents crc32 (append_file w.writer.segment_id (take n (serialize crc32 r)) w.dir)
        ≡ contents crc32 w.dir
  write_short-contents r n w wire h short =
      let good = files crc32 h.older in
      let cut = take n (serialize crc32 r) in
      let torn_file = header h.active.id ++ frames crc32 h.active.records ++ cut in
      let on_disk : append_file w.writer.segment_id cut w.dir
          ≡ good ++ (h.active.id, torn_file) ∷ [] =
        unfold file_of in
        ((λ i. append_file (h.writer_id i) cut (h.on_disk i))
          ∙ append_file_last h.active.id cut _ good h.below) in
      let seen : contents crc32 ((h.active.id, torn_file) ∷ []) ≡ h.active.records =
        unfold contents in append-nil _ ∙ read_segment_torn h.active r n h.active_wire wire short in
      ap (contents crc32) on_disk
      ∙ contents-append crc32 crc32_u32 good ((h.active.id, torn_file) ∷ [])
      ∙ (λ i.
          contents-files crc32 crc32_u32 h.older h.older_wire i
          ++ contents crc32 ((h.active.id, torn_file) ∷ []))
      ∙ ap (λ (l : List WalRecord). all_records h.older ++ l) seen
      ∙ sym (contents-IsLog crc32 crc32_u32 w h)

  write_bytes_err-contents :
      (fault : Option (ℕ × IoKind)) (r : WalRecord) (w : Wal) (e : AppendError)
      → IsWire r
      → IsLog crc32 w
      → ((n : ℕ) (k : IoKind) → fault ≡ some (n, k) → n < length (serialize crc32 r))
      → (write_bytes fault (serialize crc32 r) w).1 ≡ Appended.err e
      → contents crc32 (write_bytes fault (serialize crc32 r) w).0.dir ≡ contents crc32 w.dir
  unfolding write_bytes
  write_bytes_err-contents none r w e wire h short failed = cc
  write_bytes_err-contents (some (n, k)) r w e wire h short failed =
      write_short-contents r n w wire h (short n k refl)

  write_unless-contents :
      (failed : Option IoKind) (f : Faults) (r : WalRecord) (w v : Wal) (e : AppendError)
      → IsWire r
      → (failed ≡ none → IsLog crc32 v)
      → contents crc32 v.dir ≡ contents crc32 w.dir
      → ((n : ℕ) (k : IoKind) → f.write ≡ some (n, k) → n < length (serialize crc32 r))
      → (write_unless failed f (serialize crc32 r) v).1 ≡ Appended.err e
      → contents crc32 (write_unless failed f (serialize crc32 r) v).0.dir ≡ contents crc32 w.dir
  unfolding write_unless
  write_unless-contents (some k) f r w v e wire h same short failed = same
  write_unless-contents none f r w v e wire h same short failed =
      write_bytes_err-contents f.write r v e wire (h refl) short failed ∙ same

  append_admitted_err-contents :
      (f : Faults) (rec : WalRecord) (w : Wal) (e : AppendError)
      → (h : IsLog crc32 w) → IsWire (stamp w.offset_counter rec)
      → h.active.id + 1 < 256 ^ 8
      → ((n : ℕ) (k : IoKind)
          → f.write ≡ some (n, k)
          → n < length (serialize crc32 (stamp w.offset_counter rec)))
      → (append_admitted crc32 f rec w).1 ≡ Appended.err e
      → contents crc32 (append_admitted crc32 f rec w).0.dir ≡ contents crc32 w.dir
  unfolding append_admitted
  append_admitted_err-contents f rec w e h wire room short failed =
      let r = stamp w.offset_counter rec in
      let w1 : Wal = record w { offset_counter = (w.offset_counter + 1) % 2 ^ 64 } in
      let h1 : IsLog crc32 w1 = keep_log crc32 w w1.offset_counter w.disk_guard h in
      elim (Bool-cases (rotates (serialize crc32 r) w)) [
        | inl full ↦
            rw (full, append_admitted)
              (write_unless-contents (seal f.fsync f w1).1 f r w (seal f.fsync f w1).0 e wire
                (λ sealed.
                  rw (seal_succeeds f.fsync f w1 sealed)
                    ((seal-contents crc32 crc32_u32 w1 h1 room).0))
                (seal_fault-contents f.fsync f w1 h1 room) short
                (rw (full, append_admitted) at failed))
        | inr fits ↦
            rw (fits, append_admitted)
              (write_unless-contents none f r w w1 e wire (λ _. h1) refl short
                (rw (fits, append_admitted) at failed))
      ]

  append_unless-contents :
      (refused : Option AppendError) (f : Faults) (rec : WalRecord) (w : Wal) (e : AppendError)
      → (h : IsLog crc32 w) → IsWire (stamp w.offset_counter rec)
      → h.active.id + 1 < 256 ^ 8
      → ((n : ℕ) (k : IoKind)
          → f.write ≡ some (n, k)
          → n < length (serialize crc32 (stamp w.offset_counter rec)))
      → (append_unless crc32 refused f rec w).1 ≡ Appended.err e
      → contents crc32 (append_unless crc32 refused f rec w).0.dir ≡ contents crc32 w.dir
  unfolding append_unless
  append_unless-contents (some x) f rec w e h wire room short failed = refl
  append_unless-contents none f rec w e h wire room short failed =
      append_admitted_err-contents f rec w e h wire room short failed

  -- An append that returns an error, wherever it comes from, has changed nothing that a reader of
  -- the directory sees.
  pub append_err-contents :
      (p : Probe) (f : Faults) (rec : WalRecord) (w : Wal) (e : AppendError)
      → (h : IsLog crc32 w) → IsWire (stamp w.offset_counter rec)
      → h.active.id + 1 < 256 ^ 8
      → ((n : ℕ) (k : IoKind)
          → f.write ≡ some (n, k)
          → n < length (serialize crc32 (stamp w.offset_counter rec)))
      → (append crc32 p f rec w).1 ≡ Appended.err e
      → contents crc32 (append crc32 p f rec w).0.dir ≡ contents crc32 w.dir
  unfolding append
  append_err-contents p f rec w e h wire room short failed =
      let v : Wal = record w { disk_guard = (admit p w.disk_guard).0 } in
      append_unless-contents (admit p w.disk_guard).1 f rec v e
        (keep_log crc32 w w.offset_counter v.disk_guard h) wire room short failed
