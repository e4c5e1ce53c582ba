-- ===== src/Storage/WriteBuffer/Drain/Splits.antt =====
-- write_buffer.rs: what is drained and what stays make up the buffer.
use zradar.Base.{
  ◌+◌, ◌≡◌, refl, ap, ◌∙◌, inl, inr, List, [], ◌∷◌, ◌++◌, append-nil, Bool, false, if◌then◌else◌,
  arith, Bool-cases, not,
}
use zradar.Wal.Record.{SignalType}
use zradar.Storage.WriteBuffer.{BufferKey, buffer_key_eq, BufferSlot}
use zradar.Storage.WriteBuffer.Drain.{remove, remove_keys, keys_where, count_rows}
use zradar.Storage.WriteBuffer.Rows.{
  buffer_key_eq_refl, buffer_key_eq→≡, buffer_key_eq_sym, rows_of, collect, batches, Absent, Unique,
  WellTagged, collect-Absent,
}

abbrev AllApart : BufferKey → List BufferKey → Type 0
AllApart k [] = Unit
AllApart k (key ∷ keys) = (buffer_key_eq key k ≡ false) × AllApart k keys

module _ {Row : SignalType → Type 0} where
  unfoldable pub slots_where :
      (BufferSlot Row → Bool)
      → List (BufferKey × BufferSlot Row)
      → List (BufferKey × BufferSlot Row)
  slots_where p [] = []
  slots_where p ((key, s) ∷ slots) =
      let rest = slots_where p slots in if p s then (key, s) ∷ rest else rest

  -- Keys that are not the first slot's leave it where it is.
  remove_keys_apart :
      (keys : List BufferKey) (k : BufferKey) (s : BufferSlot Row)
      (slots : List (BufferKey × BufferSlot Row))
      → AllApart k keys
      → remove_keys keys ((k, s) ∷ slots)
        ≡ ((remove_keys keys slots).0, (k, s) ∷ (remove_keys keys slots).1)
  unfolding remove_keys remove
  remove_keys_apart [] k s slots h = refl
  remove_keys_apart (key ∷ keys) k s slots h =
      let rest = remove key slots in
      rw (h.0) (
        ap
          (λ (out : List (BufferKey × BufferSlot Row) × List (BufferKey × BufferSlot Row)).
            (rest.0 ++ out.0, out.1))
          (remove_keys_apart keys k s rest.1 h.1))

  remove_keys_first :
      (keys : List BufferKey) (k : BufferKey) (s : BufferSlot Row)
      (slots : List (BufferKey × BufferSlot Row))
      → remove_keys (k ∷ keys) ((k, s) ∷ slots)
        ≡ ((k, s) ∷ (remove_keys keys slots).0, (remove_keys keys slots).1)
  unfolding remove_keys remove
  remove_keys_first keys k s slots = rw (buffer_key_eq_refl k) refl

  keys_where-AllApart :
      (p : BufferSlot Row → Bool) (k : BufferKey) (slots : List (BufferKey × BufferSlot Row))
      → Absent k slots
      → AllApart k (keys_where p slots)
  unfolding keys_where
  keys_where-AllApart p k [] h = tt
  keys_where-AllApart p k ((key, s) ∷ slots) h = elim (Bool-cases (p s)) [
    | inl picked ↦ rw picked (buffer_key_eq_sym k key h.0, keys_where-AllApart p k slots h.1)
    | inr left ↦ rw left (keys_where-AllApart p k slots h.1)
  ]

  -- Removing the keys that a test picks is splitting the slots by the test.
  pub remove_keys-keys_where :
      (p : BufferSlot Row → Bool) (slots : List (BufferKey × BufferSlot Row))
      → Unique slots
      → remove_keys (keys_where p slots) slots
        ≡ (slots_where p slots, slots_where (λ s. not (p s)) slots)
  unfolding keys_where slots_where
  remove_keys-keys_where p [] u = unfold remove_keys in refl
  remove_keys-keys_where p ((key, s) ∷ slots) u = elim (Bool-cases (p s)) [
    | inl picked ↦ rw picked (
        remove_keys_first (keys_where p slots) key s slots
        ∙ ap
            (λ (out : List (BufferKey × BufferSlot Row) × List (BufferKey × BufferSlot Row)).
              ((key, s) ∷ out.0, out.1))
            (remove_keys-keys_where p slots u.1))
    | inr left ↦ rw left (
        remove_keys_apart (keys_where p slots) key s slots (keys_where-AllApart p key slots u.0)
        ∙ ap
            (λ (out : List (BufferKey × BufferSlot Row) × List (BufferKey × BufferSlot Row)).
              (out.0, (key, s) ∷ out.1))
            (remove_keys-keys_where p slots u.1))
  ]

  slots_where-Absent :
      (p : BufferSlot Row → Bool) (k : BufferKey) (slots : List (BufferKey × BufferSlot Row))
      → Absent k slots
      → Absent k (slots_where p slots)
  unfolding slots_where
  slots_where-Absent p k [] h = tt
  slots_where-Absent p k ((key, s) ∷ slots) h = elim (Bool-cases (p s)) [
    | inl picked ↦ rw picked (h.0, slots_where-Absent p k slots h.1)
    | inr left ↦ rw left (slots_where-Absent p k slots h.1)
  ]

  pub slots_where-Unique :
      (p : BufferSlot Row → Bool) (slots : List (BufferKey × BufferSlot Row))
      → Unique slots
      → Unique (slots_where p slots)
  unfolding slots_where
  slots_where-Unique p [] h = tt
  slots_where-Unique p ((key, s) ∷ slots) h = elim (Bool-cases (p s)) [
    | inl picked ↦ rw picked (slots_where-Absent p key slots h.0, slots_where-Unique p slots h.1)
    | inr left ↦ rw left (slots_where-Unique p slots h.1)
  ]

  pub slots_where-WellTagged :
      (p : BufferSlot Row → Bool) (slots : List (BufferKey × BufferSlot Row))
      → WellTagged slots
      → WellTagged (slots_where p slots)
  unfolding slots_where
  slots_where-WellTagged p [] h = tt
  slots_where-WellTagged p ((key, s) ∷ slots) h = elim (Bool-cases (p s)) [
    | inl picked ↦ rw picked (h.0, slots_where-WellTagged p slots h.1)
    | inr left ↦ rw left (slots_where-WellTagged p slots h.1)
  ]

  -- The rows of a key are in one of the parts.
  pub collect-split :
      (p : BufferSlot Row → Bool) (k : SignalType) (key : BufferKey)
      (slots : List (BufferKey × BufferSlot Row))
      → Unique slots
      → collect k key (batches (slots_where p slots))
          ++ collect k key (batches (slots_where (λ s. not (p s)) slots))
        ≡ collect k key (batches slots)
  unfolding slots_where batches collect
  collect-split p k key [] u = refl
  collect-split p k key ((key', s) ∷ slots) u = elim (Bool-cases (buffer_key_eq key key')) [
    | inr other ↦ elim (Bool-cases (p s)) [
      | inl picked ↦ rw (picked, other) (collect-split p k key slots u.1)
      | inr left ↦ rw (left, other) (collect-split p k key slots u.1)
    ]
    | inl same ↦
        let absent : Absent key slots = rw (buffer_key_eq→≡ key key' same) (u.0) in
        let e = collect-Absent k key slots absent in
        let e1 =
          collect-Absent k key (slots_where p slots) (slots_where-Absent p key slots absent) in
        let e2 =
          collect-Absent k key (slots_where (λ s. not (p s)) slots)
            (slots_where-Absent (λ s. not (p s)) key slots absent) in
        elim (Bool-cases (p s)) [
          | inl picked ↦ rw (picked, same, e, e1, e2) (append-nil (rows_of k s.data_ ++ []))
          | inr left ↦ rw (left, same, e, e1, e2) refl
        ]
  ]

  pub count_rows-split :
      (p : BufferSlot Row → Bool) (slots : List (BufferKey × BufferSlot Row))
      → count_rows (slots_where p slots) + count_rows (slots_where (λ s. not (p s)) slots)
        ≡ count_rows slots
  unfolding slots_where count_rows
  count_rows-split p [] = omega arith
  count_rows-split p ((key, s) ∷ slots) = ground (arith, count_rows-split p slots)
