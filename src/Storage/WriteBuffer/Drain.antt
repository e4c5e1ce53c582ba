-- ===== src/Storage/WriteBuffer/Drain.antt =====
-- write_buffer.rs: the draining of slots, and the counts.
pub mod Splits
pub mod Due
use zradar.Base.{ℕ, ◌+◌, ◌-◌, ◌*◌, List, [], ◌∷◌, ◌++◌, Bool, true, false, ◌||◌, leb, if◌then◌else◌}
use zradar.Wal.Record.{SignalType}
use zradar.Storage.WriteBuffer.{BufferKey, buffer_key_eq, BufferSlot, WriteBuffer, batch_len}

module _ {Row : SignalType → Type 0} where
  -- `slots.remove(&key)`
  unfoldable pub remove :
      BufferKey
      → List (BufferKey × BufferSlot Row)
      → List (BufferKey × BufferSlot Row) × List (BufferKey × BufferSlot Row)
  remove key [] = ([], [])
  remove key ((k, slot) ∷ slots) =
      let (found, rest) = remove key slots in
      if buffer_key_eq key k then ((k, slot) ∷ [], slots) else (found, (k, slot) ∷ rest)

  unfoldable pub remove_keys :
      List BufferKey
      → List (BufferKey × BufferSlot Row)
      → List (BufferKey × BufferSlot Row) × List (BufferKey × BufferSlot Row)
  unfolding remove
  remove_keys [] slots = ([], slots)
  remove_keys (key ∷ keys) slots =
      let (found, rest) = remove key slots in
      let (more, left) = remove_keys keys rest in (found ++ more, left)

  -- Over the size limit, or older than the interval, in nanoseconds.
  unfoldable pub is_eligible : ℕ → ℕ → ℕ → BufferSlot Row → Bool
  is_eligible max_bytes ttl now s = leb max_bytes s.size_bytes || leb ttl (now - s.created_at)

  unfoldable pub keys_where :
      (BufferSlot Row → Bool) → List (BufferKey × BufferSlot Row) → List BufferKey
  keys_where p [] = []
  keys_where p ((key, s) ∷ slots) =
      let rest = keys_where p slots in if p s then key ∷ rest else rest

  unfoldable pub drain_eligible :
      ℕ → ℕ → WriteBuffer Row → List (BufferKey × BufferSlot Row) × WriteBuffer Row
  unfolding remove_keys keys_where is_eligible
  drain_eligible flush_interval_secs now b =
      let ttl = flush_interval_secs * 1_000_000_000 in
      let (drained, left) =
        remove_keys (keys_where (is_eligible b.max_slot_bytes ttl now) b.slots) b.slots in
      (drained, record b { slots = left })

  unfoldable pub drain_all : WriteBuffer Row → List (BufferKey × BufferSlot Row) × WriteBuffer Row
  unfolding remove_keys keys_where
  drain_all b =
      let (drained, left) = remove_keys (keys_where (λ s. true) b.slots) b.slots in
      (drained, record b { slots = left })

  unfoldable pub count_rows : List (BufferKey × BufferSlot Row) → ℕ
  unfolding batch_len
  count_rows [] = 0
  count_rows ((key, s) ∷ slots) = batch_len s.data_ + count_rows slots

  unfoldable pub record_count : WriteBuffer Row → ℕ
  unfolding count_rows
  record_count b = count_rows b.slots
