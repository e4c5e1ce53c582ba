-- ===== src/Wal/Log/View.antt =====
-- What a reader of the WAL directory sees, and the well-formed logs.
use zradar.Base.{
  ℕ, ◌+◌, ◌^◌, ◌<◌, ◌≡◌, refl, ◌∙◌, ap, List, [], ◌∷◌, ◌++◌, append_assoc, append-nil, sym, length,
}
use zradar.Base.Bytes.{Bytes}
use zradar.Wal.Record.{WalRecord, IsWire, serialize}
use zradar.Wal.Segment.{Opened, open_path, header}
use zradar.Wal.Segment.Scan.{Scan, scan}
use zradar.Wal.Segment.Frames.{AllWire, frames, open_path-header, scan-frames}
use zradar.Wal.Dir.{Dir}
use zradar.Wal.Disk.{DiskSpaceGuard}
use zradar.Wal.Dir.Laws.{AllBelow}
use zradar.Wal.Log.{Wal}

module _ (crc32 : Bytes → ℕ) where
  records_of : Opened → List WalRecord
  records_of (Opened.ok r) = (scan crc32 r).records
  records_of (Opened.err e) = []

  -- The records that a reader finds in a file: `SegmentReader::open`, then `next_record`.
  unfoldable pub read_segment : Bytes → List WalRecord
  unfolding records_of
  read_segment file = records_of (open_path file)

  -- All of them, oldest segment first.
  unfoldable pub contents : Dir → List WalRecord
  contents [] = []
  contents ((id, file) ∷ d) = read_segment file ++ contents d

-- A segment of whole records.
pub record Segment : Type 0 where
  pub id : ℕ
  pub records : List WalRecord

pub record IsSegment (s : Segment) : Type 0 where
  pub id_64 : s.id < 256 ^ 8
  pub wire : AllWire s.records

abbrev pub AllSegments : List Segment → Type 0
AllSegments [] = Unit
AllSegments (s ∷ ss) = IsSegment s × AllSegments ss

unfoldable pub all_records : List Segment → List WalRecord
all_records [] = []
all_records (s ∷ ss) = s.records ++ all_records ss

module _ (crc32 : Bytes → ℕ) where
  unfoldable pub file_of : Segment → ℕ × Bytes
  file_of s = (s.id, header s.id ++ frames crc32 s.records)

  unfoldable pub files : List Segment → Dir
  unfolding file_of
  files [] = []
  files (s ∷ ss) = file_of s ∷ files ss

  -- The directory holds whole records only, and the writer stands at the end of the newest segment.
  pub record IsLog (w : Wal) : Type 0 where
    pub older : List Segment
    pub active : Segment
    pub older_wire : AllSegments older
    pub active_wire : IsSegment active
    pub on_disk : w.dir ≡ files older ++ file_of active ∷ []
    pub below : AllBelow active.id (files older)
    pub writer_id : w.writer.segment_id ≡ active.id
    pub writer_size : w.writer.current_size ≡ 13 + length (frames crc32 active.records)

module _ (crc32 : Bytes → ℕ) where
  -- The counter and the guard are not in the directory.
  abbrev pub keep_log :
      (w : Wal) (c : ℕ) (g : DiskSpaceGuard)
      → IsLog crc32 w
      → IsLog crc32 (record w { offset_counter = c; disk_guard = g })
  keep_log w c g h = record {
    older = h.older;
    active = h.active;
    older_wire = h.older_wire;
    active_wire = h.active_wire;
    on_disk = h.on_disk;
    below = h.below;
    writer_id = h.writer_id;
    writer_size = h.writer_size;
  }

module _ (crc32 : Bytes → ℕ) (crc32_u32 : (b : Bytes) → crc32 b < 256 ^ 4) where
  pub read_segment-file_of :
      (s : Segment) → IsSegment s → read_segment crc32 (file_of crc32 s).1 ≡ s.records
  unfolding read_segment file_of
  read_segment-file_of s h =
      rw (open_path-header s.id (frames crc32 s.records) h.id_64)
        (ap (λ (x : Scan). x.records) (scan-frames crc32 crc32_u32 s.id s.records h.wire))

  pub contents-files :
      (ss : List Segment) → AllSegments ss → contents crc32 (files crc32 ss) ≡ all_records ss
  unfolding contents files all_records
  contents-files [] h = refl
  contents-files (s ∷ ss) h =
      rw (read_segment-file_of s h.0)
        (ap (λ (l : List WalRecord). s.records ++ l) (contents-files ss h.1))

  pub contents-append : (d e : Dir) → contents crc32 (d ++ e) ≡ contents crc32 d ++ contents crc32 e
  unfolding contents
  contents-append [] e = refl
  contents-append ((id, file) ∷ d) e =
      ap (λ (l : List WalRecord). read_segment crc32 file ++ l) (contents-append d e)
      ∙ sym (append_assoc (read_segment crc32 file) (contents crc32 d) (contents crc32 e))

  pub files-append :
      (ss : List Segment) (s : Segment)
      → files crc32 (ss ++ s ∷ []) ≡ files crc32 ss ++ file_of crc32 s ∷ []
  unfolding files
  files-append [] s = refl
  files-append (t ∷ ss) s = ap (λ (d : Dir). file_of crc32 t ∷ d) (files-append ss s)

  pub frames-append :
      (rs : List WalRecord) (r : WalRecord)
      → frames crc32 (rs ++ r ∷ []) ≡ frames crc32 rs ++ serialize crc32 r
  unfolding frames
  frames-append [] r = append-nil _
  frames-append (t ∷ rs) r =
      ap (λ (b : Bytes). serialize crc32 t ++ b) (frames-append rs r)
      ∙ sym (append_assoc (serialize crc32 t) (frames crc32 rs) (serialize crc32 r))

  -- A log shows the records of its segments.
  pub contents-IsLog :
      (w : Wal) (h : IsLog crc32 w) → contents crc32 w.dir ≡ all_records h.older ++ h.active.records
  contents-IsLog w h =
      ap (contents crc32) h.on_disk
      ∙ contents-append (files crc32 h.older) (file_of crc32 h.active ∷ [])
      ∙ ap (λ (l : List WalRecord). l ++ contents crc32 (file_of crc32 h.active ∷ []))
          (contents-files h.older h.older_wire)
      ∙ ap (λ (l : List WalRecord). all_records h.older ++ l)
          (unfold contents file_of in (append-nil _ ∙ read_segment-file_of h.active h.active_wire))

pub AllWire-append :
    (rs : List WalRecord) (r : WalRecord) → AllWire rs → IsWire r → AllWire (rs ++ r ∷ [])
AllWire-append [] r h w = (w, tt)
AllWire-append (t ∷ rs) r h w = (h.0, AllWire-append rs r h.1 w)

pub AllSegments-append :
    (ss : List Segment) (s : Segment) → AllSegments ss → IsSegment s → AllSegments (ss ++ s ∷ [])
AllSegments-append [] s h w = (w, tt)
AllSegments-append (t ∷ ss) s h w = (h.0, AllSegments-append ss s h.1 w)

pub all_records-append :
    (ss : List Segment) (s : Segment) → all_records (ss ++ s ∷ []) ≡ all_records ss ++ s.records
unfolding all_records
all_records-append [] s = append-nil _
all_records-append (t ∷ ss) s =
    ap (λ (l : List WalRecord). t.records ++ l) (all_records-append ss s)
    ∙ sym (append_assoc t.records (all_records ss) s.records)
