-- ===== src/Wal/Janitor.antt =====
-- janitor.rs: one cleanup pass over the WAL directory. `remove_ok` says which removals succeed; an
-- error of one file is logged, and the loop goes on.
pub mod Keeps
use zradar.Base.{ℕ, Option, none, some, List, [], ◌∷◌, Bool, ltb, leb, if◌then◌else◌}
use zradar.Wal.Checkpoint.{Checkpoint}
use zradar.Wal.Dir.{Dir, list_segments, remove_file}

-- The body of the loop: never the active segment, and only what lies before the checkpoint's.
unfoldable pub cleanup_segment : (ℕ → Bool) → Checkpoint → ℕ → ℕ → Dir → Dir
cleanup_segment remove_ok cp active_id seg_id dir =
    if leb active_id seg_id
    then dir
    else if ltb seg_id cp.last_flushed_segment_id
    then (if remove_ok seg_id then remove_file seg_id dir else dir)
    else dir

-- `for &seg_id in &segments`
unfoldable pub cleanup_segments : (ℕ → Bool) → Checkpoint → ℕ → List ℕ → Dir → Dir
unfolding cleanup_segment
cleanup_segments remove_ok cp active_id [] dir = dir
cleanup_segments remove_ok cp active_id (seg_id ∷ ids) dir =
    cleanup_segments remove_ok cp active_id ids (cleanup_segment remove_ok cp active_id seg_id dir)

unfoldable pub cleanup_once : (ℕ → Bool) → Option Checkpoint → ℕ → Dir → Dir
unfolding cleanup_segments
cleanup_once remove_ok none active_id dir = dir
cleanup_once remove_ok (some cp) active_id dir =
    cleanup_segments remove_ok cp active_id (list_segments dir) dir
