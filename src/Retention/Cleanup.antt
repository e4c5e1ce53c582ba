-- ===== src/Retention/Cleanup.antt =====
-- cleanup.rs: one cycle that marks expired files as deleted. The file list is a repository, that is
-- a trait: `mark_ok` says for which workspace its update succeeds, and the ids of the updates that
-- succeeded are the effect of the cycle.
pub mod Expires
pub mod Marks
use zradar.Base.{
  ℕ, ◌+◌, Option, none, some, List, [], ◌∷◌, ◌++◌, map, length, Bool, true, false, not, ◌&&◌, ◌==◌,
  if◌then◌else◌,
}
use zradar.Base.Bytes.{Bytes, bytes_eq}
use zradar.Base.Integers.{ℤ, leb_ℤ}
use zradar.Retention.Config.{RetentionConfigStore, get_cutoff_us}

-- The columns of `file_list` that retention reads; times are in microseconds.
pub record FileListEntry : Type 0 where
  pub id : ℕ
  pub workspace_id : Bytes
  pub max_ts : ℤ
  pub compressed_size : ℤ
  pub deleted : Bool
  pub location : Bytes
  pub file_path : Bytes

pub record CleanupStats : Type 0 where
  pub files_marked : ℕ
  pub projects_processed : ℕ
  pub errors : List Bytes  -- the workspaces whose update failed

pub record Cleaned : Type 0 where
  pub stats : CleanupStats
  pub marked : List ℕ

unfoldable pub in_scope : Option Bytes → Bytes → Bool
in_scope none workspace_id = true
in_scope (some w) workspace_id = bytes_eq w workspace_id

-- `query_files` with the filter's workspace and `deleted`.
unfoldable pub query_files : Option Bytes → Bool → List FileListEntry → List FileListEntry
unfolding in_scope
query_files scope deleted [] = []
query_files scope deleted (f ∷ fs) =
    let rest = query_files scope deleted fs in
    let same = if deleted then f.deleted else not f.deleted in
    if in_scope scope f.workspace_id && same then f ∷ rest else rest

-- `by_workspace`: its keys, and the files of a key.
unfoldable pub has_workspace : Bytes → List Bytes → Bool
has_workspace w [] = false
has_workspace w (v ∷ ws) = let rest = has_workspace w ws in if bytes_eq w v then true else rest

unfoldable pub workspaces : List FileListEntry → List Bytes
unfolding has_workspace
workspaces [] = []
workspaces (f ∷ fs) =
    let rest = workspaces fs in
    if has_workspace f.workspace_id rest then rest else f.workspace_id ∷ rest

unfoldable pub files_of : Bytes → List FileListEntry → List FileListEntry
files_of w [] = []
files_of w (f ∷ fs) =
    let rest = files_of w fs in if bytes_eq w f.workspace_id then f ∷ rest else rest

unfoldable pub expired : ℤ → List FileListEntry → List FileListEntry
expired cutoff_us [] = []
expired cutoff_us (f ∷ fs) =
    let rest = expired cutoff_us fs in if leb_ℤ f.max_ts cutoff_us then f ∷ rest else rest

abbrev pub ids_of : List FileListEntry → List ℕ
ids_of = map λ f. f.id

abbrev pub nothing_marked : ℕ → Cleaned
nothing_marked projects_processed = record {
  stats = record { files_marked = 0; projects_processed = projects_processed; errors = [] };
  marked = [];
}

module _ (mark_ok : Bytes → Bool) (store : RetentionConfigStore) (now : ℕ) where
  unfoldable pub mark_expired : Bytes → List FileListEntry → Cleaned → Cleaned
  mark_expired workspace_id [] c = c
  mark_expired workspace_id (f ∷ fs) c =
      if mark_ok workspace_id
      then record {
        stats = record c.stats { files_marked = c.stats.files_marked + length (f ∷ fs) };
        marked = c.marked ++ ids_of (f ∷ fs);
      }
      else record c { stats = record c.stats { errors = c.stats.errors ++ workspace_id ∷ [] } }

  unfoldable pub clean_workspaces : List FileListEntry → List Bytes → Cleaned → Cleaned
  unfolding mark_expired expired files_of
  clean_workspaces files [] c = c
  clean_workspaces files (w ∷ ws) c =
      clean_workspaces files ws
        (mark_expired w (expired (get_cutoff_us w now store) (files_of w files)) c)

  unfoldable pub run_now_scoped : Option Bytes → List FileListEntry → Cleaned
  unfolding clean_workspaces workspaces query_files
  run_now_scoped scope file_list =
      let files = query_files scope false file_list in
      clean_workspaces files (workspaces files) (nothing_marked (length (workspaces files)))
