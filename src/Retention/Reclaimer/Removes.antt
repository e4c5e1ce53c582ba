-- ===== src/Retention/Reclaimer/Removes.antt =====
-- file_reclaimer.rs: what a cycle may remove.
use zradar.Base.{
  ℕ, ◌++◌, ◌≡◌, refl, sym, ap, ◌∙◌, inl, inr, Option, List, [], ◌∷◌, length, length-append, Bool,
  true, false, ◌&&◌, Bool-cases, arith,
}
use zradar.Base.Bytes.{Bytes, bytes_eq}
use zradar.Base.Members.{Mem_cons, Mem-append_left, Mem-append_right, Mem-append_split}
use zradar.Retention.Leases.{FileLeaseRegistry, is_leased}
use zradar.Retention.Cleanup.{FileListEntry, in_scope, query_files, workspaces, files_of}
use zradar.Retention.Reclaimer.{
  Backend, DeleteCall, nothing_reclaimed, delete_physical_file, Reclaimed, reclaim_file,
  reclaim_files, commit, reclaim_workspaces, reclaim_now_scoped,
}
use zradar.Retention.Reclaimer.Disposes.{
  Disposal, OwnCall, delete_physical_file-Disposal, delete_physical_file-OwnCall,
}
use mathlib.Core.List.{Memᴰ}

and_right : (a b : Bool) → (a && b) ≡ true → b ≡ true
and_right true b h = h
and_right false b h = cc

query_files-deleted :
    (scope : Option Bytes) (fs : List FileListEntry) (f : FileListEntry)
    → Memᴰ f (query_files scope true fs)
    → Memᴰ f fs × (f.deleted ≡ true)
unfolding query_files
query_files-deleted scope [] f at = elim at [ ]
query_files-deleted scope (g ∷ fs) f at =
    let later = λ (rest : Memᴰ f (query_files scope true fs)).
      let (listed, gone) = query_files-deleted scope fs f rest in
      let both : Memᴰ f (g ∷ fs) × (f.deleted ≡ true) = (Memᴰ.tail listed, gone) in both in
    elim (Bool-cases (in_scope scope g.workspace_id && g.deleted)) [
      | inr out ↦ later (rw out at at)
      | inl kept ↦ elim (Mem_cons f g (query_files scope true fs) (rw kept at at)) [
        | inr rest ↦ later rest
        | inl same ↦
            let marked : g.deleted ≡ true =
              and_right (in_scope scope g.workspace_id) g.deleted kept in
            (Memᴰ.head same, ap (λ (x : FileListEntry). x.deleted) same ∙ marked)
      ]
    ]

files_of-Mem :
    (w : Bytes) (fs : List FileListEntry) (f : FileListEntry) → Memᴰ f (files_of w fs) → Memᴰ f fs
unfolding files_of
files_of-Mem w [] f at = elim at [ ]
files_of-Mem w (g ∷ fs) f at = elim (Bool-cases (bytes_eq w g.workspace_id)) [
  | inr other ↦ Memᴰ.tail (files_of-Mem w fs f (rw other at at))
  | inl mine ↦ elim (Mem_cons f g (files_of w fs) (rw mine at at)) [
    | inl same ↦ Memᴰ.head same
    | inr rest ↦ Memᴰ.tail (files_of-Mem w fs f rest)
  ]
]

module _ (registry : FileLeaseRegistry) (backend : Backend) (files : List FileListEntry) where
  -- A file of the list with the id, without a lease.
  pub record Settled (id : ℕ) : Type 0 where
    pub file : FileListEntry
    pub listed : Memᴰ file files
    pub same_id : file.id ≡ id
    pub free : is_leased id registry ≡ false
    pub disposal : Disposal backend file

  -- A call for the bytes of a file of the list without a lease.
  pub record Called (call : DeleteCall) : Type 0 where
    pub file : FileListEntry
    pub listed : Memᴰ file files
    pub free : is_leased file.id registry ≡ false
    pub place : OwnCall backend file call

  -- What holds in a cycle, with the ids that wait for the commit.
  pub record Sound (ids : List ℕ) (r : Reclaimed) : Type 0 where
    pub called : (call : DeleteCall) → Memᴰ call r.calls → Called call
    pub reclaimed : (id : ℕ) → Memᴰ id r.reclaimed_ids → Settled id
    pub waiting : (id : ℕ) → Memᴰ id ids → Memᴰ id r.reclaimed_ids
    pub rows : (id : ℕ) → Memᴰ id r.deleted_rows → Memᴰ id r.reclaimed_ids
    pub counted : r.stats.files_reclaimed ≡ length r.reclaimed_ids

  append-Called :
      (f : FileListEntry) (r : Reclaimed)
      → Memᴰ f files
      → is_leased f.id registry ≡ false
      → ((call : DeleteCall) → Memᴰ call r.calls → Called call)
      → (call : DeleteCall) → Memᴰ call (r.calls ++ (delete_physical_file backend f).0)
      → Called call
  append-Called f r listed free h call at =
      elim (Mem-append_split call r.calls (delete_physical_file backend f).0 at) [
        | inl before ↦ h call before
        | inr last ↦ record {
          file = f;
          listed = listed;
          free = free;
          place = delete_physical_file-OwnCall backend f call last;
        }
      ]

  reclaim_file-Sound :
      (f : FileListEntry) (ids : List ℕ) (r : Reclaimed)
      → Memᴰ f files
      → Sound ids r
      → let (ids', r') = reclaim_file registry backend f (ids, r) in Sound ids' r'
  unfolding reclaim_file
  reclaim_file-Sound f ids r listed h = elim (Bool-cases (is_leased f.id registry)) [
    | inl leased ↦ rw leased (record {
      called = h.called;
      reclaimed = h.reclaimed;
      waiting = h.waiting;
      rows = h.rows;
      counted = h.counted;
    })
    | inr free ↦ elim (Bool-cases (delete_physical_file backend f).1) [
      | inr kept ↦
          rw (free, kept)
            (record {
              called = append-Called f r listed free h.called;
              reclaimed = h.reclaimed;
              waiting = h.waiting;
              rows = h.rows;
              counted = h.counted;
            })
      | inl done ↦
          rw (free, done)
            (record {
              called = append-Called f r listed free h.called;
              reclaimed = λ id at. elim (Mem-append_split id r.reclaimed_ids (f.id ∷ []) at) [
                | inl before ↦ h.reclaimed id before
                | inr last ↦ elim (Mem_cons id f.id [] last) [
                  | inr none_left ↦ elim none_left [ ]
                  | inl same ↦ record {
                    file = f;
                    listed = listed;
                    same_id = sym same;
                    free = ap (λ (k : ℕ). is_leased k registry) same ∙ free;
                    disposal = delete_physical_file-Disposal backend f done;
                  }
                ]
              ];
              waiting = λ id at. elim (Mem-append_split id ids (f.id ∷ []) at) [
                | inl before ↦ Mem-append_left id r.reclaimed_ids (f.id ∷ []) (h.waiting id before)
                | inr last ↦ Mem-append_right id r.reclaimed_ids (f.id ∷ []) last
              ];
              rows = λ id at. Mem-append_left id r.reclaimed_ids (f.id ∷ []) (h.rows id at);
              counted = omega (arith, h.counted, length-append r.reclaimed_ids (f.id ∷ []));
            })
    ]
  ]

  reclaim_files-Sound :
      (fs : List FileListEntry) (ids : List ℕ) (r : Reclaimed)
      → ((f : FileListEntry) → Memᴰ f fs → Memᴰ f files)
      → Sound ids r
      → let (ids', r') = reclaim_files registry backend fs (ids, r) in Sound ids' r'
  unfolding reclaim_files
  reclaim_files-Sound [] ids r sub h = h
  reclaim_files-Sound (f ∷ fs) ids r sub h =
      let (ids', r') = reclaim_file registry backend f (ids, r) in
      reclaim_files-Sound fs ids' r' (λ g at. sub g (Memᴰ.tail at))
        (reclaim_file-Sound f ids r (sub f (Memᴰ.head refl)) h)

  commit-Sound :
      (w : Bytes) (ids : List ℕ) (r : Reclaimed)
      → Sound ids r
      → Sound [] (commit registry backend w (ids, r))
  unfolding commit
  commit-Sound w [] r h = h
  commit-Sound w (k ∷ ids) r h = elim (Bool-cases (backend.commit_ok w)) [
    | inr refused ↦ rw refused (record {
      called = h.called;
      reclaimed = h.reclaimed;
      waiting = λ id at. elim at [ ];
      rows = h.rows;
      counted = h.counted;
    })
    | inl done ↦ rw done (record {
      called = h.called;
      reclaimed = h.reclaimed;
      waiting = λ id at. elim at [ ];
      rows = λ id at. elim (Mem-append_split id r.deleted_rows (k ∷ ids) at) [
        | inl before ↦ h.rows id before
        | inr added ↦ h.waiting id added
      ];
      counted = h.counted;
    })
  ]

  reclaim_workspaces-Sound :
      (ws : List Bytes) (r : Reclaimed)
      → Sound [] r
      → Sound [] (reclaim_workspaces registry backend files ws r)
  unfolding reclaim_workspaces
  reclaim_workspaces-Sound [] r h = h
  reclaim_workspaces-Sound (w ∷ ws) r h =
      let (ids, r') = reclaim_files registry backend (files_of w files) ([], r) in
      reclaim_workspaces-Sound ws (commit registry backend w (ids, r')) (
        commit-Sound w ids r'
          (reclaim_files-Sound (files_of w files) [] r (files_of-Mem w files) h))

-- A cycle asks the disk and the block storage to delete only the bytes of files in its scope that are
-- marked as deleted and not leased. It reclaims, and deletes rows of, only such files, each of whose
-- bytes were removed or found gone, unless the file lies in S3 and no block storage is configured: its
-- object stays. The count is that of the reclaimed files.
pub reclaim_now_scoped-Sound :
    (registry : FileLeaseRegistry) (backend : Backend) (scope : Option Bytes)
    (file_list : List FileListEntry)
    → let files = query_files scope true file_list in
      Sound registry backend files [] (reclaim_now_scoped registry backend scope file_list)
      × ((f : FileListEntry) → Memᴰ f files → Memᴰ f file_list × (f.deleted ≡ true))
unfolding reclaim_now_scoped
reclaim_now_scoped-Sound registry backend scope file_list =
    let files = query_files scope true file_list in
    (
      reclaim_workspaces-Sound registry backend files (workspaces files) nothing_reclaimed (record {
        called = λ call at. elim at [ ];
        reclaimed = λ id at. elim at [ ];
        waiting = λ id at. elim at [ ];
        rows = λ id at. elim at [ ];
        counted = refl;
      }),
      query_files-deleted scope file_list,
    )
