-- ===== src/Wal/Log/Append.antt =====
-- lib.rs: `Wal::append` extends what a reader sees by the one record.
use zradar.Base.{
  ℕ, ◌+◌, ◌%◌, ◌^◌, ◌<◌, ◌≡◌, refl, sym, ◌∙◌, ap, none, List, [], ◌∷◌, ◌++◌, append_assoc,
  append-nil, length, length-append, arith, Bool-cases, inl, inr,
}
use zradar.Base.Bytes.{Bytes}
use zradar.Wal.Record.{WalRecord, IsWire, serialize}
use zradar.Wal.Segment.{header}
use zradar.Wal.Segment.Frames.{frames}
use zradar.Wal.Dir.{put_file, append_file}
use zradar.Wal.Dir.Laws.{AllBelow, AllBelow-mono, AllBelow-append, put_file_new, append_file_last}
use zradar.Wal.Disk.{Probe, admit}
use zradar.Wal.Log.{
  Wal, no_faults, Appended, stamp, rotates, seal, write_bytes, append_admitted, append_unless,
  append,
}
use zradar.Wal.GroupCommit.{register}
use zradar.Wal.Log.View.{
  contents, all_records, file_of, files, IsLog, contents-IsLog, files-append, keep_log,
  frames-append, AllWire-append, AllSegments-append, all_records-append,
}

module _ (crc32 : Bytes → ℕ) (crc32_u32 : (b : Bytes) → crc32 b < 256 ^ 4) where
  -- The bytes of one record, written at the end of the newest segment.
  write_bytes-IsLog :
      (r : WalRecord) (w : Wal)
      → IsWire r
      → (h : IsLog crc32 w)
      → (after : IsLog crc32 (write_bytes none (serialize crc32 r) w).0) × (after.older ≡ h.older)
        × (after.active ≡ record { id = h.active.id; records = h.active.records ++ r ∷ [] })
  unfolding write_bytes
  write_bytes-IsLog r w wire h = (
    record {
      older = h.older;
      active = record { id = h.active.id; records = h.active.records ++ r ∷ [] };
      older_wire = h.older_wire;
      active_wire = record {
        id_64 = h.active_wire.id_64;
        wire = AllWire-append h.active.records r h.active_wire.wire wire;
      };
      on_disk =
          unfold file_of in
          ((λ i. append_file (h.writer_id i) (serialize crc32 r) (h.on_disk i))
            ∙ append_file_last h.active.id (serialize crc32 r) _ (files crc32 h.older) h.below
            ∙ ap (λ (b : Bytes). files crc32 h.older ++ (h.active.id, b) ∷ [])
                (append_assoc (header h.active.id) (frames crc32 h.active.records)
                    (serialize crc32 r)
                  ∙ ap (λ (b : Bytes). header h.active.id ++ b)
                      (sym (frames-append crc32 crc32_u32 h.active.records r))));
      below = h.below;
      writer_id = h.writer_id;
      writer_size = omega (
        arith,
        h.writer_size,
        ap (λ (b : Bytes). length b) (frames-append crc32 crc32_u32 h.active.records r),
        length-append (frames crc32 h.active.records) (serialize crc32 r),
      );
    },
    refl,
    refl,
  )

  pub below_next :
      (w : Wal) (h : IsLog crc32 w)
      → AllBelow (h.active.id + 1) (files crc32 (h.older ++ h.active ∷ []))
  below_next w h = rw (files-append crc32 crc32_u32 h.older h.active) (
      unfold file_of in
      AllBelow-append (h.active.id + 1) h.active.id _ (files crc32 h.older) (omega arith)
        (AllBelow-mono h.active.id (h.active.id + 1) _ (omega arith) h.below))

  -- A fresh segment behind a log is a log.
  seal-IsLog :
      (w : Wal)
      → (h : IsLog crc32 w) → h.active.id + 1 < 256 ^ 8
      → (after : IsLog crc32 (seal none no_faults w).0) × (after.older ≡ h.older ++ h.active ∷ [])
        × (after.active ≡ record { id = h.active.id + 1; records = [] })
        × ((seal none no_faults w).1 ≡ none)
  unfolding seal
  seal-IsLog w h room = (
    record {
      older = h.older ++ h.active ∷ [];
      active = record { id = h.active.id + 1; records = [] };
      older_wire = AllSegments-append h.older h.active h.older_wire h.active_wire;
      active_wire = record { id_64 = room; wire = tt };
      on_disk =
          (λ i.
            put_file (h.writer_id i + 1) (header (h.writer_id i + 1))
              ((h.on_disk ∙ sym (files-append crc32 crc32_u32 h.older h.active)) i))
          ∙ put_file_new (h.active.id + 1) _ _ (below_next w h)
          ∙ ap (λ (b : Bytes). files crc32 (h.older ++ h.active ∷ []) ++ (h.active.id + 1, b) ∷ [])
              (sym (append-nil (header (h.active.id + 1))))
          ∙ (unfold file_of frames in refl);
      below = below_next w h;
      writer_id = ap (λ (n : ℕ). n + 1) h.writer_id;
      writer_size = unfold frames in refl;
    },
    refl,
    refl,
    refl,
  )

  write_bytes-contents :
      (r : WalRecord) (w : Wal)
      → IsWire r
      → IsLog crc32 w
      → let w' = (write_bytes none (serialize crc32 r) w).0 in
        IsLog crc32 w' × (contents crc32 w'.dir ≡ contents crc32 w.dir ++ r ∷ [])
  write_bytes-contents r w wire h =
      let (after, same, grown) = write_bytes-IsLog r w wire h in
      (
        after,
        contents-IsLog crc32 crc32_u32 _ after
            ∙ (λ i. all_records (same i) ++ (grown i).records)
            ∙ sym (append_assoc (all_records h.older) h.active.records (r ∷ []))
            ∙ ap (λ (l : List WalRecord). l ++ r ∷ []) (sym (contents-IsLog crc32 crc32_u32 w h)),
      )

  pub seal-contents :
      (w : Wal)
      → (h : IsLog crc32 w) → h.active.id + 1 < 256 ^ 8
      → let w' = (seal none no_faults w).0 in
        IsLog crc32 w' × (contents crc32 w'.dir ≡ contents crc32 w.dir)
  seal-contents w h room =
      let (after, more, fresh, no_error) = seal-IsLog w h room in
      (
        after,
        contents-IsLog crc32 crc32_u32 _ after
            ∙ (λ i. all_records (more i) ++ (fresh i).records)
            ∙ append-nil _
            ∙ all_records-append h.older h.active
            ∙ sym (contents-IsLog crc32 crc32_u32 w h),
      )

  -- With the offset taken, in the segment that is open or in the next.
  append_admitted-contents :
      (rec : WalRecord) (w : Wal)
      → (h : IsLog crc32 w) → IsWire (stamp w.offset_counter rec)
      → h.active.id + 1 < 256 ^ 8
      → let w' = (append_admitted crc32 no_faults rec w).0 in
        IsLog crc32 w'
        × (contents crc32 w'.dir ≡ contents crc32 w.dir ++ stamp w.offset_counter rec ∷ [])
        × (w'.offset_counter ≡ (w.offset_counter + 1) % 2 ^ 64)
        × ((append_admitted crc32 no_faults rec w).1 ≡ Appended.ok w.fsync_queue.next_ticket)
  unfolding append_admitted register
  append_admitted-contents rec w h wire room =
      let r = stamp w.offset_counter rec in
      let w1 : Wal = record w { offset_counter = (w.offset_counter + 1) % 2 ^ 64 } in
      let h1 : IsLog crc32 w1 = keep_log crc32 w w1.offset_counter w.disk_guard h in
      elim (Bool-cases (rotates (serialize crc32 r) w)) [
        | inl full ↦
            let (sealed, same) = seal-contents w1 h1 room in
            let (after, grown) = write_bytes-contents r (seal none no_faults w1).0 wire sealed in
            rw (full, append_admitted)
              (after, grown ∙ ap (λ (l : List WalRecord). l ++ r ∷ []) same, refl, refl)
        | inr fits ↦
            let (after, grown) = write_bytes-contents r w1 wire h1 in
            rw (fits, append_admitted) (after, grown, refl, refl)
      ]

  -- An append that nothing refuses returns a ticket, and a reader of the directory then sees what
  -- it saw before and the record, with the next offset, behind it.
  pub append-contents :
      (p : Probe) (rec : WalRecord) (w : Wal)
      → (h : IsLog crc32 w) → IsWire (stamp w.offset_counter rec)
      → h.active.id + 1 < 256 ^ 8
      → (admit p w.disk_guard).1 ≡ none
      → let w' = (append crc32 p no_faults rec w).0 in
        IsLog crc32 w'
        × (contents crc32 w'.dir ≡ contents crc32 w.dir ++ stamp w.offset_counter rec ∷ [])
        × (w'.offset_counter ≡ (w.offset_counter + 1) % 2 ^ 64)
        × ((append crc32 p no_faults rec w).1 ≡ Appended.ok w.fsync_queue.next_ticket)
  unfolding append
  append-contents p rec w h wire room admitted =
      rw (admitted, append_unless)
        (let v : Wal = record w { disk_guard = (admit p w.disk_guard).0 } in
          append_admitted-contents rec v (keep_log crc32 w w.offset_counter v.disk_guard h) wire
            room)
