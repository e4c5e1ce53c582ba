-- ===== src/Storage/WalWriter/Grouped.antt =====
-- builder.rs: the records of a batch, and what the flush sink reads in them.
use zradar.Base.{
  ℕ, ◌+◌, ◌%◌, ◌<◌, ◌≤◌, ◌^◌, ◌≡◌, refl, sym, ap, ◌∙◌, Option, some, List, [], ◌∷◌, ◌++◌,
  append_assoc, append-nil, Bool, true, false, if◌then◌else◌, Bool-cases, inl, inr, ltb, ltb→lt,
  ltb_false→le, ◌==◌, ==_refl, arith, length, Option-cases,
}
use zradar.Base.Bytes.{Bytes, to_be, from_be, from_be-to_be, bytes_eq, bytes_eq_refl, bytes_eq→≡}
use zradar.Wal.Batch.Roundtrip.{RowsFit}
use zradar.Wal.Log.{stamp}
use zradar.Wal.Record.{SignalType, WalRecord}
use zradar.Storage.Sink.Arrives.{parse_all, parse_all-append, decoded_rows, decoded_rows-envelope}
use zradar.Storage.WalWriter.{push_group, batch_record, workspace_uuid, group_payloads}
use mathlib.Core.List.{Memᴰ}

-- Keys behind k, and keys in ascending order.
abbrev Above : ℕ → List (ℕ × List Bytes) → Type 0
Above k [] = Unit
Above k ((j, texts) ∷ groups) = (k < j) × Above k groups

abbrev Ascending : List (ℕ × List Bytes) → Type 0
Ascending [] = Unit
Ascending ((k, texts) ∷ groups) = Above k groups × Ascending groups

unfoldable pub texts_with : ℕ → List (ℕ × List Bytes) → List Bytes
texts_with q [] = []
texts_with q ((k, texts) ∷ groups) = (if k == q then texts else []) ++ texts_with q groups

Above-le : (j k : ℕ) (groups : List (ℕ × List Bytes)) → j ≤ k → Above k groups → Above j groups
Above-le j k [] le h = tt
Above-le j k ((i, texts) ∷ groups) le h = (omega (arith, h.0), Above-le j k groups le h.1)

texts_with-Above :
    (q k : ℕ) (groups : List (ℕ × List Bytes)) → q ≤ k → Above k groups → texts_with q groups ≡ []
unfolding texts_with
texts_with-Above q k [] le h = refl
texts_with-Above q k ((j, texts) ∷ groups) le h =
    ground (arith, texts_with-Above q k groups le h.1, h.0)

push_group-Above :
    (k id : ℕ) (text : Bytes) (groups : List (ℕ × List Bytes))
    → k < id
    → Above k groups
    → Above k (push_group id text groups)
unfolding push_group
push_group-Above k id text [] lt h = (lt, tt)
push_group-Above k id text ((j, texts) ∷ groups) lt h = elim (Bool-cases (ltb id j)) [
  | inl first ↦ rw first (lt, h)
  | inr later ↦ elim (Bool-cases (ltb j id)) [
    | inl behind ↦ rw (later, behind) (h.0, push_group-Above k id text groups lt h.1)
    | inr same ↦ rw (later, same) h
  ]
]

push_group-Ascending :
    (id : ℕ) (text : Bytes) (groups : List (ℕ × List Bytes))
    → Ascending groups
    → Ascending (push_group id text groups)
unfolding push_group
push_group-Ascending id text [] h = (tt, tt)
push_group-Ascending id text ((j, texts) ∷ groups) h = elim (Bool-cases (ltb id j)) [
  | inl first ↦
      rw first ((ltb→lt id j first, Above-le id j groups (omega (arith, ltb→lt id j first)) h.0), h)
  | inr later ↦ elim (Bool-cases (ltb j id)) [
    | inl behind ↦
        rw (later, behind)
          (
            push_group-Above j id text groups (ltb→lt j id behind) h.0,
            push_group-Ascending id text groups h.1,
          )
    | inr same ↦ rw (later, same) h
  ]
]

put_first :
    (q id j : ℕ) (text : Bytes) (texts : List Bytes) (groups : List (ℕ × List Bytes))
    → id < j
    → Above j groups
    → (if id == q then text ∷ [] else []) ++ ((if j == q then texts else []) ++ texts_with q groups)
      ≡ ((if j == q then texts else []) ++ texts_with q groups)
        ++ (if id == q then text ∷ [] else [])
put_first q id j text texts groups lt h = elim (Bool-cases (id == q)) [
  | inl hit ↦ ground (arith, texts_with-Above q j groups, h, hit)
  | inr miss ↦ rw miss (sym (append-nil _))
]

==→≡ : (a b : ℕ) → (a == b) ≡ true → a ≡ b
==→≡ a b h = ground arith

put_last :
    (q id j : ℕ) (text : Bytes) (texts : List Bytes) (groups : List (ℕ × List Bytes))
    → id ≡ j
    → Above j groups
    → (if j == q then texts ++ text ∷ [] else []) ++ texts_with q groups
      ≡ ((if j == q then texts else []) ++ texts_with q groups)
        ++ (if id == q then text ∷ [] else [])
put_last q id j text texts groups e h = rw e (elim (Bool-cases (j == q)) [
  | inl hit ↦
      rw (hit, texts_with-Above q j groups (omega (arith, ==→≡ j q hit)) h)
        (append-nil _ ∙ ap (λ l. l ++ text ∷ []) (sym (append-nil texts)))
  | inr miss ↦ rw miss (sym (append-nil _))
])

texts_with-push_group :
    (q id : ℕ) (text : Bytes) (groups : List (ℕ × List Bytes))
    → Ascending groups
    → texts_with q (push_group id text groups)
      ≡ texts_with q groups ++ (if id == q then text ∷ [] else [])
unfolding texts_with push_group
texts_with-push_group q id text [] h = append-nil _
texts_with-push_group q id text ((j, texts) ∷ groups) h = elim (Bool-cases (ltb id j)) [
  | inl first ↦ rw first (put_first q id j text texts groups (ltb→lt id j first) h.0)
  | inr later ↦ elim (Bool-cases (ltb j id)) [
    | inl behind ↦
        rw (later, behind, texts_with-push_group q id text groups h.1)
          (sym (append_assoc (if j == q then texts else []) (texts_with q groups) _))
    | inr same ↦
        rw (later, same)
          (put_last q id j text texts groups
            (omega (arith, ltb_false→le id j later, ltb_false→le j id same)) h.0)
  ]
]

-- The sizes of the batch fit the record and the envelope.
abbrev pub GroupsFit : List (ℕ × List Bytes) → Type 0
GroupsFit [] = Unit
GroupsFit ((id, texts) ∷ groups) =
    ((id < 256 ^ 16) × RowsFit texts × (length texts < 256 ^ 4)) × GroupsFit groups

-- The records of a workspace.
unfoldable pub records_with : ℕ → List WalRecord → List WalRecord
records_with id [] = []
records_with id (rec ∷ recs) =
    (if bytes_eq rec.workspace_id (to_be 16 id) then rec ∷ [] else []) ++ records_with id recs

bytes_eq-to_be :
    (j q : ℕ) → j < 256 ^ 16 → q < 256 ^ 16 → bytes_eq (to_be 16 j) (to_be 16 q) ≡ (j == q)
bytes_eq-to_be j q hj hq = elim (Bool-cases (bytes_eq (to_be 16 j) (to_be 16 q))) [
  | inl same ↦
      let e : j ≡ q =
        sym (from_be-to_be 16 j hj)
        ∙ ap (from_be 0) (bytes_eq→≡ (to_be 16 j) (to_be 16 q) same)
        ∙ from_be-to_be 16 q hq in
      same ∙ sym (ap (λ n. n == q) e ∙ ==_refl q)
  | inr other ↦ elim (Bool-cases (j == q)) [
    | inl e ↦
        ap (λ n. bytes_eq (to_be 16 n) (to_be 16 q)) (==→≡ j q e)
        ∙ bytes_eq_refl (to_be 16 q)
        ∙ sym e
    | inr ne ↦ other ∙ sym ne
  ]
]

-- The records of the groups, with offsets from c on.
unfoldable pub stamped_records : SignalType → ℕ → ℕ → List (ℕ × List Bytes) → List WalRecord
unfolding stamp batch_record
stamped_records k now c [] = []
stamped_records k now c (group ∷ groups) =
    stamp c (batch_record k now group) ∷ stamped_records k now ((c + 1) % 2 ^ 64) groups

module _ {Row : SignalType → Type 0} (parse : (k : SignalType) → Bytes → Option (Row k))
    (parse_uuid : Bytes → Option ℕ) (k : SignalType) (workspace_of : Row k → Bytes)
    (to_vec : Row k → Option Bytes) (now : ℕ) where
  -- The rows of a workspace, in order.
  unfoldable pub rows_of_workspace : ℕ → List (Row k) → List (Row k)
  rows_of_workspace id [] = []
  rows_of_workspace id (r ∷ rs) =
      (if workspace_uuid parse_uuid workspace_of to_vec r == id then r ∷ [] else [])
      ++ rows_of_workspace id rs

  decoded_rows-records_with :
      (q c : ℕ) (groups : List (ℕ × List Bytes))
      → q < 256 ^ 16
      → GroupsFit groups
      → decoded_rows parse k (records_with q (stamped_records k now c groups))
        ≡ parse_all parse k (texts_with q groups)
  unfolding records_with texts_with stamped_records stamp batch_record
  decoded_rows-records_with q c [] hq fit = unfold decoded_rows parse_all in refl
  decoded_rows-records_with q c ((j, texts) ∷ groups) hq fit =
      rw (bytes_eq-to_be j q fit.0.0 hq) (elim (Bool-cases (j == q)) [
        | inl hit ↦ rw hit (
            decoded_rows-envelope parse k (stamp c (batch_record k now (j, texts))) texts _ refl
              refl fit.0.1 fit.0.2
            ∙ ap (λ l. parse_all parse k texts ++ l)
                (decoded_rows-records_with q ((c + 1) % 2 ^ 64) groups hq fit.1)
            ∙ sym (parse_all-append parse k texts (texts_with q groups)))
        | inr miss ↦ rw miss (decoded_rows-records_with q ((c + 1) % 2 ^ 64) groups hq fit.1)
      ])

  parsed_here :
      (b : Bool) (r : Row k) (text : Bytes)
      → parse k text ≡ some r
      → parse_all parse k (if b then text ∷ [] else []) ≡ (if b then r ∷ [] else [])
  unfolding parse_all
  parsed_here true r text e = rw e refl
  parsed_here false r text e = refl

  texts_with-group_payloads :
      (q : ℕ) (rows : List (Row k)) (groups out : List (ℕ × List Bytes))
      → ((r : Row k) (text : Bytes) → Memᴰ r rows → to_vec r ≡ some text → parse k text ≡ some r)
      → Ascending groups
      → group_payloads parse_uuid workspace_of to_vec rows groups ≡ some out
      → parse_all parse k (texts_with q out)
        ≡ parse_all parse k (texts_with q groups) ++ rows_of_workspace q rows
  unfolding group_payloads rows_of_workspace
  texts_with-group_payloads q [] groups out reads h = λ e.
      let same : out ≡ groups = cc in
      ap (λ l. parse_all parse k (texts_with q l)) same ∙ sym (append-nil _)
  texts_with-group_payloads q (r ∷ rs) groups out reads h = elim (Option-cases (to_vec r)) [
    | inl missing ↦ rw (missing, group_payloads) (λ e. cc)
    | inr (text, there) ↦
        rw (there, group_payloads)
          (λ e.
            let id = workspace_uuid parse_uuid workspace_of to_vec r in
            let here = if id == q then text ∷ [] else [] in
            texts_with-group_payloads q rs (push_group id text groups) out
              (λ row t at. reads row t (Memᴰ.tail at)) (push_group-Ascending id text groups h) e
            ∙ ap (λ l. parse_all parse k l ++ rows_of_workspace q rs)
                (texts_with-push_group q id text groups h)
            ∙ ap (λ l. l ++ rows_of_workspace q rs)
                (parse_all-append parse k (texts_with q groups) here)
            ∙ append_assoc (parse_all parse k (texts_with q groups)) (parse_all parse k here) _
            ∙ ap (λ l. parse_all parse k (texts_with q groups) ++ (l ++ rows_of_workspace q rs))
                (parsed_here (id == q) r text (reads r text (Memᴰ.head refl) there)))
  ]

  -- The records that a batch of rows becomes, when each of them serializes to a JSON that reads back
  -- as it and the sizes fit: the flush sink decodes from those of any workspace exactly the rows of
  -- that workspace, in the order of the batch.
  pub group_payloads-decoded_rows :
      (rows : List (Row k)) (groups : List (ℕ × List Bytes)) (q c : ℕ)
      → ((r : Row k) (text : Bytes) → Memᴰ r rows → to_vec r ≡ some text → parse k text ≡ some r)
      → group_payloads parse_uuid workspace_of to_vec rows [] ≡ some groups
      → GroupsFit groups
      → q < 256 ^ 16
      → decoded_rows parse k (records_with q (stamped_records k now c groups))
        ≡ rows_of_workspace q rows
  group_payloads-decoded_rows rows groups q c reads e fit hq =
      decoded_rows-records_with q c groups hq fit
      ∙ (unfold texts_with parse_all in texts_with-group_payloads q rows [] groups reads tt e)
