-- ===== src/Retention/Reclaimer.antt =====
-- file_reclaimer.rs: one cycle that removes the bytes and the rows of files marked as deleted.
-- What the local disk, the block storage and the repository answer are arguments; the deletions that
-- it asks of them, the ids that it counts as reclaimed and the ids whose rows were deleted are the
-- effect of the cycle. The usage deltas that go with the rows are left out.

pub mod Disposes
pub mod Removes
use zradar.Base.{
  ℕ, zero, suc, ◌+◌, Option, none, some, List, [], ◌∷◌, ◌++◌, take, drop, length, Bool, true, false,
  not, ◌==◌, if◌then◌else◌,
}
use zradar.Base.Bytes.{Bytes, bytes_eq}
use zradar.Base.Integers.{ℤ, pos, negsuc}
use zradar.Retention.Leases.{FileLeaseRegistry, is_leased}
use zradar.Retention.Cleanup.{FileListEntry, query_files, workspaces, files_of}

-- `tokio::fs::remove_file`
pub data RemoveFile : Type 0 where
  removed not_found failed : RemoveFile

abbrev pub s3 : Bytes
s3 = b's' ∷ b'3' ∷ []

abbrev s3_scheme : Bytes
s3_scheme = b's' ∷ b'3' ∷ b':' ∷ b'/' ∷ b'/' ∷ []

-- What follows the first slash.
unfoldable pub after_slash : Bytes → Option Bytes
after_slash [] = none
after_slash (c ∷ cs) = let rest = after_slash cs in if c == b'/' then some cs else rest

abbrev or_url : Bytes → Option Bytes → Bytes
or_url s3_url none = s3_url
or_url s3_url (some key) = key

unfoldable pub extract_s3_key : Bytes → Bytes
unfolding after_slash
extract_s3_key s3_url =
    if bytes_eq (take 5 s3_url) s3_scheme
    then or_url s3_url (after_slash (drop 5 s3_url))
    else s3_url

pub record Backend : Type 0 where
  pub remove_file : Bytes → RemoveFile
  pub block_storage : Option (Bytes → Bool)  -- `delete(key)` succeeds
  pub commit_ok : Bytes → Bool  -- the rows of a workspace are deleted

abbrev pub is_gone : RemoveFile → Bool
is_gone removed = true
is_gone not_found = true
is_gone failed = false

-- A call of `tokio::fs::remove_file` or of `BlockStorage::delete`.
pub data DeleteCall : Type 0 where
  local : (path : Bytes) → DeleteCall
  object : (key : Bytes) → DeleteCall

-- Without a block storage the object stays where it is.
unfoldable pub delete_s3 : Option (Bytes → Bool) → Bytes → List DeleteCall × Bool
unfolding extract_s3_key
delete_s3 none file_path = ([], true)
delete_s3 (some delete) file_path =
    let key = extract_s3_key file_path in (object key ∷ [], delete key)

-- The calls, and whether the row may be deleted.
unfoldable pub delete_physical_file : Backend → FileListEntry → List DeleteCall × Bool
unfolding delete_s3
delete_physical_file backend f =
    if bytes_eq f.location s3
    then delete_s3 backend.block_storage f.file_path
    else (local f.file_path ∷ [], is_gone (backend.remove_file f.file_path))

pub record ReclaimStats : Type 0 where
  pub files_reclaimed : ℕ
  pub bytes_freed : ℕ
  pub files_skipped_leased : ℕ
  pub errors : ℕ

pub record Reclaimed : Type 0 where
  pub stats : ReclaimStats
  pub calls : List DeleteCall
  pub reclaimed_ids : List ℕ
  pub deleted_rows : List ℕ

abbrev pub nothing_reclaimed : Reclaimed
nothing_reclaimed = record {
  stats = record { files_reclaimed = 0; bytes_freed = 0; files_skipped_leased = 0; errors = 0 };
  calls = [];
  reclaimed_ids = [];
  deleted_rows = [];
}

-- `compressed_size.max(0) as u64`
unfoldable pub size_of : ℤ → ℕ
size_of (pos n) = n
size_of (negsuc n) = 0

module _ (registry : FileLeaseRegistry) (backend : Backend) where
  -- One file; `ids_to_delete` is passed on.
  unfoldable pub reclaim_file : FileListEntry → List ℕ × Reclaimed → List ℕ × Reclaimed
  unfolding size_of
  reclaim_file f (ids, r) =
      if is_leased f.id registry
      then (
        ids,
        record r {
          stats = record r.stats { files_skipped_leased = r.stats.files_skipped_leased + 1 };
        },
      )
      else let (calls, deleted) = delete_physical_file backend f in
        if not deleted
        then (
          ids,
          record r {
            stats = record r.stats { errors = r.stats.errors + 1 };
            calls = r.calls ++ calls;
          },
        )
        else (
          ids ++ f.id ∷ [],
          record r {
            stats = record r.stats {
              bytes_freed = r.stats.bytes_freed + size_of f.compressed_size;
              files_reclaimed = r.stats.files_reclaimed + 1;
            };
            calls = r.calls ++ calls;
            reclaimed_ids = r.reclaimed_ids ++ f.id ∷ [];
          },
        )

  unfoldable pub reclaim_files : List FileListEntry → List ℕ × Reclaimed → List ℕ × Reclaimed
  unfolding reclaim_file
  reclaim_files [] out = out
  reclaim_files (f ∷ fs) out = reclaim_files fs (reclaim_file f out)

  -- The rows of the files that were taken for deleted, if there are any.
  unfoldable pub commit : Bytes → List ℕ × Reclaimed → Reclaimed
  commit workspace_id ([], r) = r
  commit workspace_id (id ∷ ids, r) =
      if backend.commit_ok workspace_id
      then record r { deleted_rows = r.deleted_rows ++ id ∷ ids }
      else record r { stats = record r.stats { errors = r.stats.errors + 1 } }

  unfoldable pub reclaim_workspaces : List FileListEntry → List Bytes → Reclaimed → Reclaimed
  unfolding reclaim_files commit
  reclaim_workspaces files [] r = r
  reclaim_workspaces files (w ∷ ws) r =
      reclaim_workspaces files ws (commit w (reclaim_files (files_of w files) ([], r)))

  unfoldable pub reclaim_now_scoped : Option Bytes → List FileListEntry → Reclaimed
  unfolding reclaim_workspaces
  reclaim_now_scoped scope file_list =
      let files = query_files scope true file_list in
      reclaim_workspaces files (workspaces files) nothing_reclaimed
