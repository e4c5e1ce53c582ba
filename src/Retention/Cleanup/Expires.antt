-- ===== src/Retention/Cleanup/Expires.antt =====
-- cleanup.rs: which files a cycle marks.
use zradar.Base.{
  ℕ, ◌≡◌, refl, sym, ap, ◌∙◌, inl, inr, Option, List, [], ◌∷◌, true, false, not, ◌&&◌, Bool-cases,
  arith,
}
use zradar.Base.Bytes.{Bytes, bytes_eq, bytes_eq→≡}
use zradar.Base.Integers.{ℤ, leb_ℤ}
use zradar.Base.Members.{Mem_cons}
use zradar.Retention.Cleanup.{
  FileListEntry, in_scope, query_files, has_workspace, workspaces, files_of, expired, ids_of,
}
use mathlib.Core.List.{Memᴰ}

-- The file is listed, and what the filter asks for.
pub record Queried (scope : Option Bytes) (list : List FileListEntry) (f : FileListEntry)
    : Type 0 where
  pub listed : Memᴰ f list
  pub active : f.deleted ≡ false
  pub scoped : in_scope scope f.workspace_id ≡ true

active_in_scope :
    (scope : Option Bytes) (g : FileListEntry)
    → (in_scope scope g.workspace_id && not g.deleted) ≡ true
    → (in_scope scope g.workspace_id ≡ true) × (g.deleted ≡ false)
active_in_scope scope g h = elim (Bool-cases (in_scope scope g.workspace_id)) [
  | inl yes_ ↦ (yes_, ground arith)
  | inr no_ ↦ ground arith
]

pub query_files-Queried :
    (scope : Option Bytes) (full fs : List FileListEntry)
    → ((f : FileListEntry) → Memᴰ f fs → Memᴰ f full)
    → (f : FileListEntry) → Memᴰ f (query_files scope false fs)
    → Queried scope full f
unfolding query_files
query_files-Queried scope full [] sub f at = elim at [ ]
query_files-Queried scope full (g ∷ fs) sub f at =
    let later = query_files-Queried scope full fs (λ h hs. sub h (Memᴰ.tail hs)) f in
    elim (Bool-cases (in_scope scope g.workspace_id && not g.deleted)) [
      | inr out ↦ later (rw out at at)
      | inl kept ↦ elim (Mem_cons f g (query_files scope false fs) (rw kept at at)) [
        | inr rest ↦ later rest
        | inl same ↦
            let (scoped, active) = active_in_scope scope g kept in
            record {
              listed = sub f (Memᴰ.head same);
              active = ap (λ (x : FileListEntry). x.deleted) same ∙ active;
              scoped = ap (λ (x : FileListEntry). in_scope scope x.workspace_id) same ∙ scoped;
            }
      ]
    ]

pub Queried-query_files :
    (scope : Option Bytes) (fs : List FileListEntry) (f : FileListEntry)
    → Memᴰ f fs
    → f.deleted ≡ false
    → in_scope scope f.workspace_id ≡ true
    → Memᴰ f (query_files scope false fs)
unfolding query_files
Queried-query_files scope [] f at active scoped = elim at [ ]
Queried-query_files scope (g ∷ fs) f at active scoped = elim (Mem_cons f g fs at) [
  | inl same ↦
      let s = ap (λ (x : FileListEntry). in_scope scope x.workspace_id) (sym same) ∙ scoped in
      let a = ap (λ (x : FileListEntry). x.deleted) (sym same) ∙ active in
      let kept : (in_scope scope g.workspace_id && not g.deleted) ≡ true = ground (arith, s, a) in
      rw kept (Memᴰ.head same)
  | inr rest ↦
      let later = Queried-query_files scope fs f rest active scoped in
      elim (Bool-cases (in_scope scope g.workspace_id && not g.deleted)) [
        | inl kept ↦ rw kept (Memᴰ.tail later)
        | inr out ↦ rw out later
      ]
]

-- A file of the workspace with the id that is expired.
pub record ExpiredIn (cutoff : ℤ) (w : Bytes) (fs : List FileListEntry) (id : ℕ) : Type 0 where
  pub file : FileListEntry
  pub listed : Memᴰ file fs
  pub same_id : file.id ≡ id
  pub mine : file.workspace_id ≡ w
  pub old : leb_ℤ file.max_ts cutoff ≡ true

ExpiredIn-tail :
    (cutoff : ℤ) (w : Bytes) (g : FileListEntry) (fs : List FileListEntry) (id : ℕ)
    → ExpiredIn cutoff w fs id
    → ExpiredIn cutoff w (g ∷ fs) id
ExpiredIn-tail cutoff w g fs id h = record {
  file = h.file;
  listed = Memᴰ.tail h.listed;
  same_id = h.same_id;
  mine = h.mine;
  old = h.old;
}

pub expired-files_of :
    (cutoff : ℤ) (w : Bytes) (fs : List FileListEntry) (id : ℕ)
    → Memᴰ id (ids_of (expired cutoff (files_of w fs)))
    → ExpiredIn cutoff w fs id
unfolding expired files_of
expired-files_of cutoff w [] id at = elim at [ ]
expired-files_of cutoff w (g ∷ fs) id at =
    let later = λ (rest : Memᴰ id (ids_of (expired cutoff (files_of w fs)))).
      ExpiredIn-tail cutoff w g fs id (expired-files_of cutoff w fs id rest) in
    elim (Bool-cases (bytes_eq w g.workspace_id)) [
      | inr other ↦ later (rw other at at)
      | inl mine ↦ elim (Bool-cases (leb_ℤ g.max_ts cutoff)) [
        | inr fresh ↦ later (rw (mine, fresh) at at)
        | inl old ↦
            elim (Mem_cons id g.id (ids_of (expired cutoff (files_of w fs)))
              (rw (mine, old) at at)) [
                | inr rest ↦ later rest
                | inl same ↦ record {
                  file = g;
                  listed = Memᴰ.head refl;
                  same_id = sym same;
                  mine = sym (bytes_eq→≡ w g.workspace_id mine);
                  old = old;
                }
              ]
      ]
    ]

pub files_of-expired :
    (cutoff : ℤ) (w : Bytes) (fs : List FileListEntry) (f : FileListEntry)
    → Memᴰ f fs
    → bytes_eq w f.workspace_id ≡ true
    → leb_ℤ f.max_ts cutoff ≡ true
    → Memᴰ f.id (ids_of (expired cutoff (files_of w fs)))
unfolding expired files_of
files_of-expired cutoff w [] f at mine old = elim at [ ]
files_of-expired cutoff w (g ∷ fs) f at mine old = elim (Mem_cons f g fs at) [
  | inl same ↦
      let m = ap (λ (x : FileListEntry). bytes_eq w x.workspace_id) (sym same) ∙ mine in
      let o = ap (λ (x : FileListEntry). leb_ℤ x.max_ts cutoff) (sym same) ∙ old in
      rw (m, o) (Memᴰ.head (ap (λ (x : FileListEntry). x.id) same))
  | inr rest ↦
      let later = files_of-expired cutoff w fs f rest mine old in
      elim (Bool-cases (bytes_eq w g.workspace_id)) [
        | inr other ↦ rw other later
        | inl ours ↦ elim (Bool-cases (leb_ℤ g.max_ts cutoff)) [
          | inr fresh ↦ rw (ours, fresh) later
          | inl gone ↦ rw (ours, gone) (Memᴰ.tail later)
        ]
      ]
]

has_workspace-Mem : (w : Bytes) (ws : List Bytes) → has_workspace w ws ≡ true → Memᴰ w ws
unfolding has_workspace
has_workspace-Mem w [] h = cc
has_workspace-Mem w (v ∷ ws) h = elim (Bool-cases (bytes_eq w v)) [
  | inl same ↦ Memᴰ.head (bytes_eq→≡ w v same)
  | inr other ↦ Memᴰ.tail (has_workspace-Mem w ws (rw other at h))
]

pub workspaces-Mem :
    (fs : List FileListEntry) (f : FileListEntry) → Memᴰ f fs → Memᴰ f.workspace_id (workspaces fs)
unfolding workspaces
workspaces-Mem [] f at = elim at [ ]
workspaces-Mem (g ∷ fs) f at = elim (Bool-cases (has_workspace g.workspace_id (workspaces fs))) [
  | inl there ↦ elim (Mem_cons f g fs at) [
    | inl same ↦
        let e = ap (λ (x : FileListEntry). x.workspace_id) same in
        rw there (rw (sym e) at (has_workspace-Mem g.workspace_id (workspaces fs) there))
    | inr rest ↦ rw there (workspaces-Mem fs f rest)
  ]
  | inr fresh ↦ elim (Mem_cons f g fs at) [
    | inl same ↦ rw fresh (Memᴰ.head (ap (λ (x : FileListEntry). x.workspace_id) same))
    | inr rest ↦ rw fresh (Memᴰ.tail (workspaces-Mem fs f rest))
  ]
]
