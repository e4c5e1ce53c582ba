-- ===== src/Storage/Writer/Groups.antt =====
-- telemetry_writer.rs: each group of a partitioned batch holds exactly the rows of its key.
use zradar.Base.{
  ◌≡◌, refl, sym, ap, ◌∙◌, inl, inr, List, [], ◌∷◌, ◌++◌, append_assoc, append-nil, Bool, true,
  false, ◌&&◌, if◌then◌else◌, Bool-cases, arith, ℕ,
}
use zradar.Base.Bytes.{Bytes, bytes_eq→≡}
use zradar.Base.Integers.{ℤ, pos, div_euclid, eq_ℤ→≡}
use zradar.Storage.Keys.{
  PartitionKey, key_eq, key_eq_refl, key_eq→≡, key_of_row, nanos_per_hour, ts_ns_to_date_path,
}
use zradar.Storage.Keys.Hours.{ts_ns_to_date_path_bucket}
use zradar.Storage.Writer.{
  RowFields, Partitioned, homogeneous, grouped, key_of, same_partition, is_homogeneous, push_row,
  group_rows, partition_by_storage_key,
}

key_eq_sym : (a b : PartitionKey) → key_eq a b ≡ false → key_eq b a ≡ false
key_eq_sym a b h = elim (Bool-cases (key_eq b a)) [
  | inr different ↦ different
  | inl same ↦
      let e : key_eq a b ≡ true =
        ap (λ (x : PartitionKey). key_eq a x) (key_eq→≡ b a same) ∙ key_eq_refl a in
      cc
]

module _ {T : Type 0} where
  -- The rows of the groups under a key.
  unfoldable pub select : PartitionKey → List (PartitionKey × List T) → List T
  select q [] = []
  select q ((k, rows) ∷ groups) = (if key_eq q k then rows else []) ++ select q groups

  abbrev AbsentKey : PartitionKey → List (PartitionKey × List T) → Type 0
  AbsentKey q [] = Unit
  AbsentKey q ((k, rows) ∷ groups) = (key_eq q k ≡ false) × AbsentKey q groups

  abbrev pub UniqueKeys : List (PartitionKey × List T) → Type 0
  UniqueKeys [] = Unit
  UniqueKeys ((k, rows) ∷ groups) = AbsentKey k groups × UniqueKeys groups

  select_absent :
      (q : PartitionKey) (groups : List (PartitionKey × List T))
      → AbsentKey q groups
      → select q groups ≡ []
  unfolding select
  select_absent q [] h = refl
  select_absent q ((k, rows) ∷ groups) h = rw (h.0) (select_absent q groups h.1)

  push_row-AbsentKey :
      (k key : PartitionKey) (r : T) (groups : List (PartitionKey × List T))
      → key_eq k key ≡ false
      → AbsentKey k groups
      → AbsentKey k (push_row key r groups)
  unfolding push_row
  push_row-AbsentKey k key r [] other h = (other, tt)
  push_row-AbsentKey k key r ((k', rows) ∷ groups) other h =
      ground (arith, push_row-AbsentKey k key r groups other h.1)

  push_row-UniqueKeys :
      (key : PartitionKey) (r : T) (groups : List (PartitionKey × List T))
      → UniqueKeys groups
      → UniqueKeys (push_row key r groups)
  unfolding push_row
  push_row-UniqueKeys key r [] u = (tt, tt)
  push_row-UniqueKeys key r ((k, rows) ∷ groups) u = elim (Bool-cases (key_eq key k)) [
    | inl same ↦ rw same u
    | inr different ↦ rw different (
      push_row-AbsentKey k key r groups (key_eq_sym key k different) u.0,
      push_row-UniqueKeys key r groups u.1,
    )
  ]

  select-push_row :
      (q key : PartitionKey) (r : T) (groups : List (PartitionKey × List T))
      → UniqueKeys groups
      → select q (push_row key r groups) ≡ select q groups ++ (if key_eq q key then r ∷ [] else [])
  unfolding select push_row
  select-push_row q key r [] u = append-nil (if key_eq q key then r ∷ [] else [])
  select-push_row q key r ((k, rows) ∷ groups) u = elim (Bool-cases (key_eq key k)) [
    | inr different ↦
        let here = if key_eq q k then rows else [] in
        let more = if key_eq q key then r ∷ [] else [] in
        rw different (
          ap (λ (l : List T). here ++ l) (select-push_row q key r groups u.1)
          ∙ sym (append_assoc here (select q groups) more))
    | inl same ↦
        let e = ap (λ (x : PartitionKey). key_eq q x) (key_eq→≡ key k same) in
        elim (Bool-cases (key_eq q k)) [
          | inr other ↦ rw (same, e, other) (sym (append-nil (select q groups)))
          | inl mine ↦
              let absent : AbsentKey q groups = rw (key_eq→≡ q k mine) (u.0) in
              let nothing = select_absent q groups absent in
              rw (same, e, mine, nothing)
                (append-nil (rows ++ r ∷ [])
                  ∙ ap (λ (l : List T). l ++ r ∷ []) (sym (append-nil rows)))
        ]
  ]

and-true : (a b : Bool) → (a && b) ≡ true → (a ≡ true) × (b ≡ true)
and-true true b h = (refl, h)
and-true false b h = cc

module _ {T : Type 0} (format_hour : ℤ → Bytes) (fields : RowFields T) where
  -- The rows that belong to a key, in order.
  unfoldable pub rows_with : PartitionKey → List T → List T
  rows_with q [] = []
  rows_with q (r ∷ rs) =
      (if key_eq q (key_of format_hour fields r) then r ∷ [] else []) ++ rows_with q rs

  select-group_rows :
      (q : PartitionKey) (rs : List T) (groups : List (PartitionKey × List T))
      → UniqueKeys groups
      → select q (group_rows format_hour fields groups rs) ≡ select q groups ++ rows_with q rs
  unfolding group_rows rows_with
  select-group_rows q [] groups u = sym (append-nil (select q groups))
  select-group_rows q (r ∷ rs) groups u =
      let key = key_of format_hour fields r in
      select-group_rows q rs (push_row key r groups) (push_row-UniqueKeys key r groups u)
      ∙ ap (λ (l : List T). l ++ rows_with q rs) (select-push_row q key r groups u)
      ∙ append_assoc (select q groups) (if key_eq q key then r ∷ [] else []) (rows_with q rs)

  -- The time is not before the epoch.
  abbrev pub AllFromEpoch : List T → Type 0
  AllFromEpoch [] = Unit
  AllFromEpoch (r ∷ rs) = ((n : ℕ) × (fields.ts_of r ≡ pos n)) × AllFromEpoch rs

  -- Rows whose discriminators are equal have one key, from the epoch on.
  same_partition-key_of :
      (first r : T) (m n : ℕ)
      → fields.ts_of first ≡ pos m
      → fields.ts_of r ≡ pos n
      → same_partition format_hour fields first r ≡ true
      → key_of format_hour fields r ≡ key_of format_hour fields first
  unfolding same_partition key_of_row
  same_partition-key_of first r m n at_m at_n h =
      let (ab, times) = and-true _ _ h in
      let (spaces, streams) = and-true _ _ ab in
      let w = bytes_eq→≡ _ _ spaces in
      let s = bytes_eq→≡ _ _ streams in
      let bucket : div_euclid (pos n) nanos_per_hour ≡ div_euclid (pos m) nanos_per_hour =
        eq_ℤ→≡ _ _ (rw (at_m, at_n) at times) in
      let t : ts_ns_to_date_path format_hour (fields.ts_of r)
          ≡ ts_ns_to_date_path format_hour (fields.ts_of first) =
        ap (ts_ns_to_date_path format_hour) at_n
        ∙ ts_ns_to_date_path_bucket format_hour n m bucket
        ∙ sym (ap (ts_ns_to_date_path format_hour) at_m) in
      λ i. record { workspace_id = w i; stream_name = s i; hour = t i }

  rows_with-homogeneous :
      (q : PartitionKey) (first : T) (m : ℕ) (rs : List T)
      → fields.ts_of first ≡ pos m
      → AllFromEpoch rs
      → is_homogeneous format_hour fields first rs ≡ true
      → rows_with q rs ≡ (if key_eq q (key_of format_hour fields first) then rs else [])
  unfolding rows_with is_homogeneous
  rows_with-homogeneous q first m [] at_m h same = ground arith
  rows_with-homogeneous q first m (r ∷ rs) at_m ((n, at_n), h) same =
      let (here, rest) = and-true _ _ same in
      let e = same_partition-key_of first r m n at_m at_n here in
      ap (λ (k : PartitionKey). (if key_eq q k then r ∷ [] else []) ++ rows_with q rs) e
      ∙ ap
          (λ (l : List T). (if key_eq q (key_of format_hour fields first) then r ∷ [] else []) ++ l)
          (rows_with-homogeneous q first m rs at_m h rest)
      ∙ elim (Bool-cases (key_eq q (key_of format_hour fields first))) [
        | inl mine ↦ rw mine refl
        | inr other ↦ rw other refl
      ]

  abbrev pub groups_of : Partitioned T → List (PartitionKey × List T)
  groups_of (homogeneous key rows) = (key, rows) ∷ []
  groups_of (grouped groups) = groups

  -- A partitioned batch has, under every key, exactly its rows of that key, in order, whichever way
  -- the partitioning took, if no row is from before the epoch.
  pub partition_by_storage_key-select :
      (q : PartitionKey) (first : T) (rs : List T)
      → AllFromEpoch (first ∷ rs)
      → select q (groups_of (partition_by_storage_key format_hour fields first rs))
        ≡ rows_with q (first ∷ rs)
  unfolding partition_by_storage_key
  partition_by_storage_key-select q first rs h =
      elim (Bool-cases (is_homogeneous format_hour fields first (first ∷ rs))) [
        | inl one ↦ rw one (
            unfold select in
            append-nil (if key_eq q (key_of format_hour fields first) then first ∷ rs else [])
            ∙ sym (rows_with-homogeneous q first h.0.0 (first ∷ rs) h.0.1 h one))
        | inr mixed ↦ rw mixed (unfold select in select-group_rows q (first ∷ rs) [] tt)
      ]
