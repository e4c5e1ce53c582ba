-- ===== src/Retention/Cleanup/Marks.antt =====
-- cleanup.rs: a cycle marks exactly the files that are expired.
use zradar.Base.{
  ℕ, ◌≡◌, refl, sym, ap, ◌∙◌, ◌⊎◌, inl, inr, Option, List, [], ◌∷◌, length, length-append, Bool,
  true, false, Bool-cases, arith,
}
use zradar.Base.Bytes.{Bytes, bytes_eq, bytes_eq_refl}
use zradar.Base.Integers.{leb_ℤ}
use zradar.Base.Members.{Mem_cons, Mem-append_left, Mem-append_right, Mem-append_split}
use zradar.Retention.Config.{RetentionConfigStore, get_cutoff_us}
use zradar.Retention.Cleanup.{
  FileListEntry, Cleaned, in_scope, query_files, workspaces, files_of, expired, nothing_marked,
  ids_of, mark_expired, clean_workspaces, run_now_scoped,
}
use zradar.Retention.Cleanup.Expires.{
  Queried-query_files, expired-files_of, files_of-expired, workspaces-Mem,
}
use mathlib.Core.List.{Memᴰ}

length-ids_of : (fs : List FileListEntry) → length (ids_of fs) ≡ length fs
length-ids_of [] = refl
length-ids_of (f ∷ fs) = omega (arith, length-ids_of fs)

module _ (mark_ok : Bytes → Bool) (store : RetentionConfigStore) (now : ℕ) where
  -- A file with the id that is past the cutoff of its workspace, where the update succeeds.
  pub record Expired (files : List FileListEntry) (id : ℕ) : Type 0 where
    pub file : FileListEntry
    pub listed : Memᴰ file files
    pub same_id : file.id ≡ id
    pub old : leb_ℤ file.max_ts (get_cutoff_us file.workspace_id now store) ≡ true
    pub marks : mark_ok file.workspace_id ≡ true

  mark_expired-marked :
      (w : Bytes) (fs : List FileListEntry) (c : Cleaned) (id : ℕ)
      → Memᴰ id (mark_expired mark_ok store now w fs c).marked
      → Memᴰ id c.marked ⊎ (Memᴰ id (ids_of fs) × (mark_ok w ≡ true))
  unfolding mark_expired
  mark_expired-marked w [] c id at = inl at
  mark_expired-marked w (f ∷ fs) c id at = elim (Bool-cases (mark_ok w)) [
    | inr refused ↦ inl (rw refused at at)
    | inl done ↦ elim (Mem-append_split id c.marked (ids_of (f ∷ fs)) (rw done at at)) [
      | inl before ↦ inl before
      | inr now_ ↦ inr (now_, done)
    ]
  ]

  clean_workspaces-Expired :
      (files : List FileListEntry) (ws : List Bytes) (c : Cleaned) (id : ℕ)
      → Memᴰ id (clean_workspaces mark_ok store now files ws c).marked
      → Memᴰ id c.marked ⊎ Expired files id
  unfolding clean_workspaces
  clean_workspaces-Expired files [] c id at = inl at
  clean_workspaces-Expired files (w ∷ ws) c id at =
      let gone = expired (get_cutoff_us w now store) (files_of w files) in
      elim (clean_workspaces-Expired files ws (mark_expired mark_ok store now w gone c) id at) [
        | inr found ↦ inr found
        | inl earlier ↦ elim (mark_expired-marked w gone c id earlier) [
          | inl before ↦ inl before
          | inr (of_w, done) ↦
              let e = expired-files_of (get_cutoff_us w now store) w files id of_w in
              inr (record {
                file = e.file;
                listed = e.listed;
                same_id = e.same_id;
                old =
                    ap (λ (v : Bytes). leb_ℤ e.file.max_ts (get_cutoff_us v now store)) e.mine
                    ∙ e.old;
                marks = ap mark_ok e.mine ∙ done;
              })
        ]
      ]

  mark_expired-grows :
      (w : Bytes) (fs : List FileListEntry) (c : Cleaned) (id : ℕ)
      → Memᴰ id c.marked
      → Memᴰ id (mark_expired mark_ok store now w fs c).marked
  unfolding mark_expired
  mark_expired-grows w [] c id at = at
  mark_expired-grows w (f ∷ fs) c id at = elim (Bool-cases (mark_ok w)) [
    | inr refused ↦ rw refused at
    | inl done ↦ rw done (Mem-append_left id c.marked (ids_of (f ∷ fs)) at)
  ]

  clean_workspaces-grows :
      (files : List FileListEntry) (ws : List Bytes) (c : Cleaned) (id : ℕ)
      → Memᴰ id c.marked
      → Memᴰ id (clean_workspaces mark_ok store now files ws c).marked
  unfolding clean_workspaces
  clean_workspaces-grows files [] c id at = at
  clean_workspaces-grows files (w ∷ ws) c id at =
      let gone = expired (get_cutoff_us w now store) (files_of w files) in
      clean_workspaces-grows files ws (mark_expired mark_ok store now w gone c) id
        (mark_expired-grows w gone c id at)

  mark_expired-marks :
      (w : Bytes) (fs : List FileListEntry) (c : Cleaned) (id : ℕ)
      → Memᴰ id (ids_of fs)
      → mark_ok w ≡ true
      → Memᴰ id (mark_expired mark_ok store now w fs c).marked
  unfolding mark_expired
  mark_expired-marks w [] c id at done = elim at [ ]
  mark_expired-marks w (f ∷ fs) c id at done =
      rw done (Mem-append_right id c.marked (ids_of (f ∷ fs)) at)

  clean_workspaces-marks :
      (files : List FileListEntry) (ws : List Bytes) (c : Cleaned) (f : FileListEntry)
      → Memᴰ f files
      → Memᴰ f.workspace_id ws
      → leb_ℤ f.max_ts (get_cutoff_us f.workspace_id now store) ≡ true
      → mark_ok f.workspace_id ≡ true
      → Memᴰ f.id (clean_workspaces mark_ok store now files ws c).marked
  unfolding clean_workspaces
  clean_workspaces-marks files [] c f listed at old done = elim at [ ]
  clean_workspaces-marks files (w ∷ ws) c f listed at old done =
      let gone = expired (get_cutoff_us w now store) (files_of w files) in
      elim (Mem_cons f.workspace_id w ws at) [
        | inr rest ↦
            clean_workspaces-marks files ws (mark_expired mark_ok store now w gone c) f listed rest
              old done
        | inl here ↦
            let mine : bytes_eq w f.workspace_id ≡ true =
              ap (λ (v : Bytes). bytes_eq v f.workspace_id) (sym here)
              ∙ bytes_eq_refl f.workspace_id in
            let old_w =
              ap (λ (v : Bytes). leb_ℤ f.max_ts (get_cutoff_us v now store)) (sym here) ∙ old in
            let in_gone =
              files_of-expired (get_cutoff_us w now store) w files f listed mine old_w in
            clean_workspaces-grows files ws (mark_expired mark_ok store now w gone c) f.id
              (mark_expired-marks w gone c f.id in_gone (ap mark_ok (sym here) ∙ done))
      ]

  mark_expired-counts :
      (w : Bytes) (fs : List FileListEntry) (c : Cleaned)
      → c.stats.files_marked ≡ length c.marked
      → let c' = mark_expired mark_ok store now w fs c in c'.stats.files_marked ≡ length c'.marked
  unfolding mark_expired
  mark_expired-counts w [] c h = h
  mark_expired-counts w (f ∷ fs) c h = elim (Bool-cases (mark_ok w)) [
    | inr refused ↦ rw refused h
    | inl done ↦
        rw done (omega (arith, h, length-append c.marked (ids_of (f ∷ fs)), length-ids_of fs))
  ]

  clean_workspaces-counts :
      (files : List FileListEntry) (ws : List Bytes) (c : Cleaned)
      → c.stats.files_marked ≡ length c.marked
      → let c' = clean_workspaces mark_ok store now files ws c in
        c'.stats.files_marked ≡ length c'.marked
  unfolding clean_workspaces
  clean_workspaces-counts files [] c h = h
  clean_workspaces-counts files (w ∷ ws) c h =
      let gone = expired (get_cutoff_us w now store) (files_of w files) in
      clean_workspaces-counts files ws (mark_expired mark_ok store now w gone c)
        (mark_expired-counts w gone c h)

  -- A cycle marks exactly the active files in its scope that are at or past the cutoff of their
  -- workspace, where the update of the file list succeeds, and counts them.
  pub run_now_scoped-marks :
      (scope : Option Bytes) (file_list : List FileListEntry)
      → let c = run_now_scoped mark_ok store now scope file_list in
        ((id : ℕ) → Memᴰ id c.marked → Expired (query_files scope false file_list) id)
        × ((f : FileListEntry)
            → Memᴰ f file_list
            → f.deleted ≡ false
            → in_scope scope f.workspace_id ≡ true
            → leb_ℤ f.max_ts (get_cutoff_us f.workspace_id now store) ≡ true
            → mark_ok f.workspace_id ≡ true
            → Memᴰ f.id c.marked)
        × (c.stats.files_marked ≡ length c.marked)
  unfolding run_now_scoped
  run_now_scoped-marks scope file_list =
      let files = query_files scope false file_list in
      (
        λ id at. elim (clean_workspaces-Expired files (workspaces files) _ id at) [
          | inl before ↦ elim before [ ]
          | inr found ↦ found
        ],
        λ f listed active scoped old done.
            let queried = Queried-query_files scope file_list f listed active scoped in
            clean_workspaces-marks files (workspaces files) _ f queried
              (workspaces-Mem files f queried) old done,
        clean_workspaces-counts files (workspaces files)
            (nothing_marked (length (workspaces files))) refl,
      )
