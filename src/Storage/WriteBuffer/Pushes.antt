-- ===== src/Storage/WriteBuffer/Pushes.antt =====
-- write_buffer.rs: what the push methods do to the rows of a key.
use zradar.Base.{
  ℕ, ◌≡◌, refl, sym, ap, ◌∙◌, inl, inr, Option, none, some, List, [], ◌∷◌, ◌++◌, append-nil,
  if◌then◌else◌, Bool-cases,
}
use zradar.Wal.Record.{SignalType, trace, metric, log, score}
use zradar.Storage.WriteBuffer.{
  BufferKey, buffer_key_eq, SignalBatch, spans, metrics, logs, scores, BufferSlot, WriteBuffer,
  append_or_take, empty_batch, extend_from_slice, extend_owned, grow_slot, get_slot, put_slot,
  or_insert, push_with, push_spans, push_metrics, push_logs, push_scores, push_spans_owned,
  push_metrics_owned, push_logs_owned, push_scores_owned, push, push_owned, signal_tag,
}
use zradar.Storage.WriteBuffer.Rows.{
  buffer_key_eq→≡, signal_tag_inj, signal_of, batch, rows_of, collect, batches, Unique, WellTagged,
  rows_in, collect-get_slot, get_slot-put_slot, put_slot-Unique, put_slot-WellTagged,
  get_slot-WellTagged,
}

append_or_take-append : {A : Type 0} (v rows : List A) → append_or_take v rows ≡ v ++ rows
unfolding append_or_take
append_or_take-append [] rows = refl
append_or_take-append (x ∷ v) rows = refl

empty_batch-facts :
    (Row : SignalType → Type 0) (k j : SignalType)
    → (signal_of (empty_batch {Row = Row} j) ≡ j) × (rows_of {Row = Row} k (empty_batch j) ≡ [])
unfolding empty_batch rows_of
empty_batch-facts Row trace trace = (refl, refl)
empty_batch-facts Row metric metric = (refl, refl)
empty_batch-facts Row log log = (refl, refl)
empty_batch-facts Row score score = (refl, refl)
empty_batch-facts Row _ _ = (refl, refl)

module _ {Row : SignalType → Type 0} where
  signal_of-extend :
      (k : SignalType) (rows : List (Row k)) (b : SignalBatch Row)
      → signal_of (extend_from_slice k rows b) ≡ signal_of b
  unfolding extend_from_slice
  signal_of-extend trace rows (spans v) = refl
  signal_of-extend metric rows (metrics v) = refl
  signal_of-extend log rows (logs v) = refl
  signal_of-extend score rows (scores v) = refl
  signal_of-extend _ rows b = refl

  rows_of-extend :
      (k j : SignalType) (rows : List (Row j)) (b : SignalBatch Row)
      → signal_of b ≡ j
      → rows_of k (extend_from_slice j rows b) ≡ rows_of k b ++ rows_of {Row = Row} k (batch j rows)
  unfolding extend_from_slice rows_of
  rows_of-extend trace trace rows (spans v) h = refl
  rows_of-extend _ trace rows (spans v) h = refl
  rows_of-extend metric metric rows (metrics v) h = refl
  rows_of-extend _ metric rows (metrics v) h = refl
  rows_of-extend log log rows (logs v) h = refl
  rows_of-extend _ log rows (logs v) h = refl
  rows_of-extend score score rows (scores v) h = refl
  rows_of-extend _ score rows (scores v) h = refl
  rows_of-extend _ _ rows b h = cc

  or_insert-facts :
      (key : BufferKey) (k j : SignalType) (now : ℕ) (slots : List (BufferKey × BufferSlot Row))
      (found : Option (BufferSlot Row))
      → WellTagged slots
      → key.signal_type ≡ signal_tag j
      → get_slot key slots ≡ found
      → (signal_of (or_insert j now found).data_ ≡ j)
        × (rows_of k (or_insert j now found).data_ ≡ rows_in k found)
  unfolding or_insert rows_in
  or_insert-facts key k j now slots none t fits e = empty_batch-facts Row k j
  or_insert-facts key k j now slots (some s) t fits e = (
    signal_tag_inj (signal_of s.data_) j (sym (get_slot-WellTagged key slots s t e) ∙ fits),
    refl,
  )

  push_with-collect :
      (k j : SignalType) (rows : List (Row j)) (added : ℕ) (key : BufferKey) (now : ℕ)
      (b : WriteBuffer Row) (key' : BufferKey)
      → Unique b.slots
      → WellTagged b.slots
      → key.signal_type ≡ signal_tag j
      → collect k key' (batches (push_with (extend_from_slice j rows) added key j now b).slots)
        ≡ collect k key' (batches b.slots)
          ++ (if buffer_key_eq key' key then rows_of {Row = Row} k (batch j rows) else [])
  unfolding push_with grow_slot rows_in rows_of
  push_with-collect k j rows added key now b key' u t fits =
      let found = get_slot key b.slots in
      let more = rows_of {Row = Row} k (batch j rows) in
      let slot = grow_slot (extend_from_slice j rows) added (or_insert j now found) in
      let (kind, old) = or_insert-facts key k j now b.slots found t fits refl in
      let grown : rows_of k slot.data_ ≡ rows_in k found ++ more =
        rows_of-extend k j rows (or_insert j now found).data_ kind
        ∙ ap (λ (l : List (Row k)). l ++ more) old in
      collect-get_slot k key' (put_slot key slot b.slots) (put_slot-Unique key slot b.slots u)
      ∙ ap (rows_in k) (get_slot-put_slot key' key slot b.slots)
      ∙ elim (Bool-cases (buffer_key_eq key' key)) [
        | inl same ↦
            let here =
              ap (λ (x : BufferKey). rows_in k (get_slot x b.slots))
                (sym (buffer_key_eq→≡ key' key same)) in
            rw same (
              grown
              ∙ ap (λ (l : List (Row k)). l ++ more)
                  (here ∙ sym (collect-get_slot k key' b.slots u)))
        | inr other ↦ rw other (
            sym (collect-get_slot k key' b.slots u)
            ∙ sym (append-nil (collect k key' (batches b.slots))))
      ]

  -- Either invariant of the map is kept.
  pub push_with-keeps :
      (k : SignalType) (rows : List (Row k)) (added : ℕ) (key : BufferKey) (now : ℕ)
      (b : WriteBuffer Row)
      → Unique b.slots
      → WellTagged b.slots
      → key.signal_type ≡ signal_tag k
      → let b' = push_with (extend_from_slice k rows) added key k now b in
        Unique b'.slots × WellTagged b'.slots
  unfolding push_with grow_slot
  push_with-keeps k rows added key now b u t fits =
      let found = get_slot key b.slots in
      let slot = grow_slot (extend_from_slice k rows) added (or_insert k now found) in
      let (kind, old) = or_insert-facts key k k now b.slots found t fits refl in
      (
        put_slot-Unique key slot b.slots u,
        put_slot-WellTagged key slot b.slots
            (fits
              ∙ sym (ap signal_tag (signal_of-extend k rows (or_insert k now found).data_ ∙ kind)))
            t,
      )

  extend_owned-extend :
      (k : SignalType) (rows : List (Row k)) (b : SignalBatch Row)
      → extend_owned k rows b ≡ extend_from_slice k rows b
  unfolding extend_owned extend_from_slice
  extend_owned-extend trace rows (spans v) = ap spans (append_or_take-append v rows)
  extend_owned-extend metric rows (metrics v) = ap metrics (append_or_take-append v rows)
  extend_owned-extend log rows (logs v) = ap logs (append_or_take-append v rows)
  extend_owned-extend score rows (scores v) = ap scores (append_or_take-append v rows)
  extend_owned-extend _ rows b = refl

  push_with-owned :
      (k : SignalType) (rows : List (Row k)) (added : ℕ) (key : BufferKey) (now : ℕ)
      (b : WriteBuffer Row)
      → push_with (extend_owned k rows) added key k now b
        ≡ push_with (extend_from_slice k rows) added key k now b
  push_with-owned k rows added key now b =
      ap (λ (extend : SignalBatch Row → SignalBatch Row). push_with extend added key k now b)
        (λ i batch. extend_owned-extend k rows batch i)

  -- For each signal the method that moves its rows and the one that copies them leave the same
  -- buffer, whatever the buffer holds.
  pub push_owned-push :
      (k : SignalType) (key : BufferKey) (rows : List (Row k)) (now : ℕ) (b : WriteBuffer Row)
      → push_owned k key rows now b ≡ push k key rows now b
  unfolding push push_owned push_spans push_metrics push_logs push_scores push_spans_owned
      push_metrics_owned push_logs_owned push_scores_owned
  push_owned-push trace key rows now b = push_with-owned trace rows _ key now b
  push_owned-push metric key rows now b = push_with-owned metric rows _ key now b
  push_owned-push log key rows now b = push_with-owned log rows _ key now b
  push_owned-push score key rows now b = push_with-owned score rows _ key now b

  -- In a buffer whose slots hold the signals that their keys name, each push method adds its rows
  -- behind those of its signal and key, and leaves the rows of all other keys and signals.
  pub push-collect :
      (j : SignalType) (key : BufferKey) (rows : List (Row j)) (now : ℕ) (b : WriteBuffer Row)
      (k : SignalType) (key' : BufferKey)
      → Unique b.slots
      → WellTagged b.slots
      → key.signal_type ≡ signal_tag j
      → collect k key' (batches (push j key rows now b).slots)
        ≡ collect k key' (batches b.slots)
          ++ (if buffer_key_eq key' key then rows_of {Row = Row} k (batch j rows) else [])
  unfolding push push_spans push_metrics push_logs push_scores
  push-collect trace key rows now b k = push_with-collect k trace rows _ key now b
  push-collect metric key rows now b k = push_with-collect k metric rows _ key now b
  push-collect log key rows now b k = push_with-collect k log rows _ key now b
  push-collect score key rows now b k = push_with-collect k score rows _ key now b

  pub push-keeps :
      (k : SignalType) (key : BufferKey) (rows : List (Row k)) (now : ℕ) (b : WriteBuffer Row)
      → Unique b.slots
      → WellTagged b.slots
      → key.signal_type ≡ signal_tag k
      → Unique (push k key rows now b).slots × WellTagged (push k key rows now b).slots
  unfolding push push_spans push_metrics push_logs push_scores
  push-keeps trace key rows now b = push_with-keeps trace rows _ key now b
  push-keeps metric key rows now b = push_with-keeps metric rows _ key now b
  push-keeps log key rows now b = push_with-keeps log rows _ key now b
  push-keeps score key rows now b = push_with-keeps score rows _ key now b
