-- ===== src/Wal/Janitor/Keeps.antt =====
-- janitor.rs: a cleanup loses nothing that is still to be flushed.
use zradar.Base.{
  ℕ, ◌≤◌, ◌≡◌, ◌∙◌, refl, ap, inl, inr, Option, none, some, List, [], ◌∷◌, Bool, true, false,
  Bool-cases, ltb, leb, ◌==◌, if◌then◌else◌, arith,
}
use zradar.Base.Bytes.{Bytes}
use zradar.Wal.Checkpoint.{Checkpoint}
use zradar.Wal.Dir.{Dir, list_segments, get_file, remove_file}
use zradar.Wal.Log.View.{Segment, AllSegments, files, file_of}
use zradar.Wal.Flusher.Pending.{pending, IdsAbove, Ascending}
use zradar.Wal.Janitor.{cleanup_segment, cleanup_segments, cleanup_once}

-- The segments without the first of this id.
unfoldable remove_segment : ℕ → List Segment → List Segment
remove_segment id [] = []
remove_segment id (s ∷ ss) = if s.id == id then ss else s ∷ remove_segment id ss

IdsAbove-remove_segment :
    (n id : ℕ) (ss : List Segment) → IdsAbove n ss → IdsAbove n (remove_segment id ss)
unfolding remove_segment
IdsAbove-remove_segment n id [] a = tt
IdsAbove-remove_segment n id (s ∷ ss) a = elim (Bool-cases (s.id == id)) [
  | inl e ↦ rw e a.1
  | inr e ↦ rw e (a.0, IdsAbove-remove_segment n id ss a.1)
]

Ascending-remove_segment :
    (id : ℕ) (ss : List Segment) → Ascending ss → Ascending (remove_segment id ss)
unfolding remove_segment
Ascending-remove_segment id [] a = tt
Ascending-remove_segment id (s ∷ ss) a = elim (Bool-cases (s.id == id)) [
  | inl e ↦ rw e a.1
  | inr e ↦ rw e (IdsAbove-remove_segment s.id id ss a.0, Ascending-remove_segment id ss a.1)
]

AllSegments-remove_segment :
    (id : ℕ) (ss : List Segment) → AllSegments ss → AllSegments (remove_segment id ss)
unfolding remove_segment
AllSegments-remove_segment id [] a = tt
AllSegments-remove_segment id (s ∷ ss) a = elim (Bool-cases (s.id == id)) [
  | inl e ↦ rw e a.1
  | inr e ↦ rw e (a.0, AllSegments-remove_segment id ss a.1)
]

-- What lies before the checkpoint's segment is not pending.
pending-remove_segment :
    (cp : Checkpoint) (id : ℕ) (ss : List Segment)
    → ltb id cp.last_flushed_segment_id ≡ true
    → pending (some cp) (remove_segment id ss) ≡ pending (some cp) ss
unfolding remove_segment pending
pending-remove_segment cp id [] h = refl
pending-remove_segment cp id (s ∷ ss) h = ground (arith, pending-remove_segment cp id ss h)

module _ (crc32 : Bytes → ℕ) where
  remove_file-files :
      (id : ℕ) (ss : List Segment)
      → remove_file id (files crc32 ss) ≡ files crc32 (remove_segment id ss)
  unfolding remove_file files file_of remove_segment
  remove_file-files id [] = refl
  remove_file-files id (s ∷ ss) = ground (arith, remove_file-files id ss)

  -- The directory after a cleanup: files of whole segments in order, with the same records pending.
  pub record Kept (cp : Option Checkpoint) (ss : List Segment) (dir : Dir) : Type 0 where
    pub kept : List Segment
    pub on_disk : dir ≡ files crc32 kept
    pub whole : AllSegments kept
    pub ascending : Ascending kept
    pub same_pending : pending cp kept ≡ pending cp ss

  cleanup_segment-Kept :
      (remove_ok : ℕ → Bool) (cp : Checkpoint) (active seg_id : ℕ) (ss : List Segment)
      → AllSegments ss
      → Ascending ss
      → Kept (some cp) ss (cleanup_segment remove_ok cp active seg_id (files crc32 ss))
  unfolding cleanup_segment
  cleanup_segment-Kept remove_ok cp active seg_id ss h up =
      let same : Kept (some cp) ss (files crc32 ss) = record {
        kept = ss;
        on_disk = refl;
        whole = h;
        ascending = up;
        same_pending = refl;
      } in
      elim (Bool-cases (leb active seg_id)) [
        | inl e ↦ rw e same
        | inr e ↦ elim (Bool-cases (ltb seg_id cp.last_flushed_segment_id)) [
          | inr f ↦ rw (e, f) same
          | inl f ↦ elim (Bool-cases (remove_ok seg_id)) [
            | inr g ↦ rw (e, f, g) same
            | inl g ↦
                rw (e, f, g)
                  (record {
                    kept = remove_segment seg_id ss;
                    on_disk = remove_file-files seg_id ss;
                    whole = AllSegments-remove_segment seg_id ss h;
                    ascending = Ascending-remove_segment seg_id ss up;
                    same_pending = pending-remove_segment cp seg_id ss f;
                  })
          ]
        ]
      ]

  cleanup_segments-Kept :
      (remove_ok : ℕ → Bool) (cp : Checkpoint) (active : ℕ) (ids : List ℕ) (ss : List Segment)
      → AllSegments ss
      → Ascending ss
      → Kept (some cp) ss (cleanup_segments remove_ok cp active ids (files crc32 ss))
  unfolding cleanup_segments
  cleanup_segments-Kept remove_ok cp active [] ss h up = record {
    kept = ss;
    on_disk = refl;
    whole = h;
    ascending = up;
    same_pending = refl;
  }
  cleanup_segments-Kept remove_ok cp active (id ∷ ids) ss h up =
      let once = cleanup_segment-Kept remove_ok cp active id ss h up in
      let later =
        cleanup_segments-Kept remove_ok cp active ids once.kept once.whole once.ascending in
      record {
        kept = later.kept;
        on_disk = ap (cleanup_segments remove_ok cp active ids) once.on_disk ∙ later.on_disk;
        whole = later.whole;
        ascending = later.ascending;
        same_pending = later.same_pending ∙ once.same_pending;
      }

  -- A cleanup of a well-formed log leaves a well-formed log with the same records pending, whichever
  -- removals fail.
  pub cleanup_once-Kept :
      (remove_ok : ℕ → Bool) (cp : Option Checkpoint) (active : ℕ) (ss : List Segment)
      → AllSegments ss
      → Ascending ss
      → Kept cp ss (cleanup_once remove_ok cp active (files crc32 ss))
  unfolding cleanup_once
  cleanup_once-Kept remove_ok none active ss h up = record {
    kept = ss;
    on_disk = refl;
    whole = h;
    ascending = up;
    same_pending = refl;
  }
  cleanup_once-Kept remove_ok (some cp) active ss h up =
      cleanup_segments-Kept remove_ok cp active (list_segments (files crc32 ss)) ss h up

get_file-remove_file :
    (id j : ℕ) (d : Dir) → (j == id) ≡ false → get_file id (remove_file j d) ≡ get_file id d
unfolding get_file remove_file
get_file-remove_file id j [] h = refl
get_file-remove_file id j ((k, b) ∷ d) h = elim (Bool-cases (k == j)) [
  | inl e ↦ let same : k ≡ j = ground arith in rw (e, same, h) refl
  | inr e ↦
      rw e
        (ap (λ (o : Option Bytes). if k == id then some b else o) (get_file-remove_file id j d h))
]

cleanup_segment-get_file :
    (remove_ok : ℕ → Bool) (cp : Checkpoint) (active id seg_id : ℕ) (d : Dir)
    → leb active id ≡ true
    → get_file id (cleanup_segment remove_ok cp active seg_id d) ≡ get_file id d
unfolding cleanup_segment
cleanup_segment-get_file remove_ok cp active id seg_id d h = elim (Bool-cases (leb active seg_id)) [
  | inl e ↦ rw e refl
  | inr e ↦ elim (Bool-cases (ltb seg_id cp.last_flushed_segment_id)) [
    | inr f ↦ rw (e, f) refl
    | inl f ↦ elim (Bool-cases (remove_ok seg_id)) [
      | inr g ↦ rw (e, f, g) refl
      | inl g ↦ rw (e, f, g) (get_file-remove_file id seg_id d (ground arith))
    ]
  ]
]

cleanup_segments-get_file :
    (remove_ok : ℕ → Bool) (cp : Checkpoint) (active id : ℕ) (ids : List ℕ) (d : Dir)
    → leb active id ≡ true
    → get_file id (cleanup_segments remove_ok cp active ids d) ≡ get_file id d
unfolding cleanup_segments
cleanup_segments-get_file remove_ok cp active id [] d h = refl
cleanup_segments-get_file remove_ok cp active id (seg_id ∷ ids) d h =
    cleanup_segments-get_file remove_ok cp active id ids
      (cleanup_segment remove_ok cp active seg_id d) h
    ∙ cleanup_segment-get_file remove_ok cp active id seg_id d h

-- A cleanup keeps the active segment's file, and those of newer segments, whatever the checkpoint
-- says and whatever the files hold.
pub cleanup_once-get_file :
    (remove_ok : ℕ → Bool) (cp : Option Checkpoint) (active id : ℕ) (dir : Dir)
    → active ≤ id
    → get_file id (cleanup_once remove_ok cp active dir) ≡ get_file id dir
unfolding cleanup_once
cleanup_once-get_file remove_ok none active id dir h = refl
cleanup_once-get_file remove_ok (some cp) active id dir h =
    cleanup_segments-get_file remove_ok cp active id (list_segments dir) dir (ground arith)
