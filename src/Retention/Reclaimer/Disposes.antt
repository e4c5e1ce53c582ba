-- ===== src/Retention/Reclaimer/Disposes.antt =====
-- file_reclaimer.rs: what `delete_physical_file` asks for, and what its answer means.
use zradar.Base.{
  Option-cases, ◌≡◌, ◌≢◌, ◌⊎◌, none, some, refl, ap, ◌∙◌, inl, inr, [], ◌∷◌, Bool, true, false,
  Bool-cases,
}
use zradar.Base.Bytes.{Bytes, bytes_eq, bytes_eq_refl, bytes_eq→≡}
use zradar.Base.Members.{Mem_cons}
use zradar.Retention.Cleanup.{FileListEntry}
use zradar.Retention.Reclaimer.{
  Backend, RemoveFile, removed, not_found, failed, is_gone, DeleteCall, local, object, s3,
  extract_s3_key, delete_s3, delete_physical_file,
}
use mathlib.Core.List.{Memᴰ}

gone_cases :
    (r : RemoveFile) → is_gone r ≡ true → (r ≡ RemoveFile.removed) ⊎ (r ≡ RemoveFile.not_found)
gone_cases removed e = inl refl
gone_cases not_found e = inr refl
gone_cases failed e = cc

only : (call one : DeleteCall) → Memᴰ call (one ∷ []) → call ≡ one
only call one at = elim (Mem_cons call one [] at) [ inl e ↦ e | inr rest ↦ elim rest [ ] ]

module _ (backend : Backend) where
  -- What became of the bytes of a file: they were removed, or found gone; or the file lies in S3 and
  -- no block storage is configured, so that the object stays.
  pub data Disposal (f : FileListEntry) : Type 0 where
    removed_locally :
        f.location ≢ s3 → backend.remove_file f.file_path ≡ RemoveFile.removed → Disposal f
    found_gone :
        f.location ≢ s3 → backend.remove_file f.file_path ≡ RemoveFile.not_found → Disposal f
    deleted_object :
        (delete : Bytes → Bool)
        → f.location ≡ s3
        → backend.block_storage ≡ some delete
        → delete (extract_s3_key f.file_path) ≡ true
        → Disposal f
    left_in_bucket : f.location ≡ s3 → backend.block_storage ≡ none → Disposal f

  not_s3 : (f : FileListEntry) → bytes_eq f.location s3 ≡ false → f.location ≢ s3
  not_s3 f other e =
      let same : bytes_eq f.location s3 ≡ true =
        ap (λ (l : Bytes). bytes_eq l s3) e ∙ bytes_eq_refl s3 in
      cc

  pub delete_physical_file-Disposal :
      (f : FileListEntry) → (delete_physical_file backend f).1 ≡ true → Disposal f
  unfolding delete_physical_file delete_s3
  delete_physical_file-Disposal f done = elim (Bool-cases (bytes_eq f.location s3)) [
    | inl in_s3 ↦
        let loc = bytes_eq→≡ f.location s3 in_s3 in
        elim (Option-cases backend.block_storage) [
          | inl absent ↦ left_in_bucket loc absent
          | inr (delete, there) ↦
              deleted_object delete loc there
                (rw (in_s3, there, delete_physical_file, delete_s3) at done)
        ]
    | inr on_disk ↦
        elim (gone_cases (backend.remove_file f.file_path)
          (rw (on_disk, delete_physical_file) at done)) [
            | inl e ↦ removed_locally (not_s3 f on_disk) e
            | inr e ↦ found_gone (not_s3 f on_disk) e
          ]
  ]

  -- The call is for the place where the file lies.
  abbrev pub OwnCall : FileListEntry → DeleteCall → Type 0
  OwnCall f call =
      ((f.location ≢ s3) × (call ≡ local f.file_path))
      ⊎ ((f.location ≡ s3) × (call ≡ object (extract_s3_key f.file_path)))

  pub delete_physical_file-OwnCall :
      (f : FileListEntry) (call : DeleteCall)
      → Memᴰ call (delete_physical_file backend f).0
      → OwnCall f call
  unfolding delete_physical_file delete_s3
  delete_physical_file-OwnCall f call at = elim (Bool-cases (bytes_eq f.location s3)) [
    | inl in_s3 ↦ elim (Option-cases backend.block_storage) [
      | inl absent ↦ elim (rw (in_s3, absent, delete_physical_file, delete_s3) at at) [ ]
      | inr (delete, there) ↦ inr (
        bytes_eq→≡ f.location s3 in_s3,
        only call (object (extract_s3_key f.file_path))
            (rw (in_s3, there, delete_physical_file, delete_s3) at at),
      )
    ]
    | inr on_disk ↦
        inl (
          not_s3 f on_disk,
          only call (local f.file_path) (rw (on_disk, delete_physical_file) at at),
        )
  ]
