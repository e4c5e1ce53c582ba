-- ===== src/Storage/WriteBuffer.antt =====
-- write_buffer.rs: rows that wait for the flush worker, in one slot for each key.
-- A row of each signal is a type that the buffer does not look into. The map is a list of its
-- entries: what the source says of no order is said of none here. Sizes stay below 2^64, and an
-- instant is a number of nanoseconds.
pub mod Drain
pub mod Rows
pub mod Pushes
use zradar.Base.{
  ℕ, ◌+◌, ◌-◌, ◌*◌, ◌≡◌, refl, ap, Option, none, some, List, [], ◌∷◌, ◌++◌, length, Bool, true,
  false, ◌&&◌, ◌||◌, leb, if◌then◌else◌, arith,
}
use zradar.Base.Bytes.{Bytes, bytes_eq, bytes_eq_refl, bytes_eq→≡}
use zradar.Wal.Record.{SignalType, trace, metric, log, score}

pub record BufferKey : Type 0 where
  pub workspace_id : Bytes
  pub signal_type : Bytes
  pub stream_name : Bytes
  pub hour : Bytes

unfoldable pub buffer_key_eq : BufferKey → BufferKey → Bool
buffer_key_eq a b =
    bytes_eq a.workspace_id b.workspace_id
    && bytes_eq a.signal_type b.signal_type
    && bytes_eq a.stream_name b.stream_name
    && bytes_eq a.hour b.hour

pub data SignalBatch (Row : SignalType → Type 0) : Type 0 where
  spans : List (Row trace) → SignalBatch Row
  metrics : List (Row metric) → SignalBatch Row
  logs : List (Row log) → SignalBatch Row
  scores : List (Row score) → SignalBatch Row

pub record BufferSlot (Row : SignalType → Type 0) : Type 0 where
  pub data_ : SignalBatch Row
  pub size_bytes : ℕ
  pub created_at : ℕ

-- `notified`: a permit is stored for the flush worker.
pub record WriteBuffer (Row : SignalType → Type 0) : Type 0 where
  pub slots : List (BufferKey × BufferSlot Row)
  pub max_slot_bytes : ℕ
  pub notified : Bool

unfoldable pub rough_size : ℕ → ℕ → ℕ
rough_size count bytes_per_record = count * bytes_per_record

-- `if v.is_empty() { *v = spans } else { v.append(&mut spans) }`
unfoldable pub append_or_take {ℓ} : {A : Type ℓ} → List A → List A → List A
append_or_take [] rows = rows
append_or_take (x ∷ v) rows = (x ∷ v) ++ rows

module _ {Row : SignalType → Type 0} where
  unfoldable pub new : ℕ → WriteBuffer Row
  new max_slot_bytes = record { slots = []; max_slot_bytes = max_slot_bytes; notified = false }

  -- `SignalBatch::len`
  unfoldable pub batch_len : SignalBatch Row → ℕ
  batch_len (spans v) = length v
  batch_len (metrics v) = length v
  batch_len (logs v) = length v
  batch_len (scores v) = length v

  -- The empty batch of the signal, as `or_insert_with` makes it.
  unfoldable pub empty_batch : SignalType → SignalBatch Row
  empty_batch trace = spans []
  empty_batch metric = metrics []
  empty_batch log = logs []
  empty_batch score = scores []

  -- `if let SignalBatch::Spans(ref mut v) = slot.data { v.extend_from_slice(spans) }`, and its
  -- counterparts: rows of another signal are not kept.
  unfoldable pub extend_from_slice :
      (k : SignalType) → List (Row k) → SignalBatch Row → SignalBatch Row
  extend_from_slice trace rows (spans v) = spans (v ++ rows)
  extend_from_slice metric rows (metrics v) = metrics (v ++ rows)
  extend_from_slice log rows (logs v) = logs (v ++ rows)
  extend_from_slice score rows (scores v) = scores (v ++ rows)
  extend_from_slice _ rows b = b

  unfoldable pub extend_owned : (k : SignalType) → List (Row k) → SignalBatch Row → SignalBatch Row
  unfolding append_or_take
  extend_owned trace rows (spans v) = spans (append_or_take v rows)
  extend_owned metric rows (metrics v) = metrics (append_or_take v rows)
  extend_owned log rows (logs v) = logs (append_or_take v rows)
  extend_owned score rows (scores v) = scores (append_or_take v rows)
  extend_owned _ rows b = b

  unfoldable pub grow_slot :
      (SignalBatch Row → SignalBatch Row) → ℕ → BufferSlot Row → BufferSlot Row
  grow_slot extend added slot = record slot {
    data_ = extend slot.data_;
    size_bytes = slot.size_bytes + added;
  }

  unfoldable pub get_slot : BufferKey → List (BufferKey × BufferSlot Row) → Option (BufferSlot Row)
  get_slot key [] = none
  get_slot key ((k, slot) ∷ slots) =
      let rest = get_slot key slots in if buffer_key_eq key k then some slot else rest

  -- The slot put under the key, in the place of the one that is there.
  unfoldable pub put_slot :
      BufferKey
      → BufferSlot Row
      → List (BufferKey × BufferSlot Row)
      → List (BufferKey × BufferSlot Row)
  put_slot key slot [] = (key, slot) ∷ []
  put_slot key slot ((k, old) ∷ slots) =
      let rest = put_slot key slot slots in
      if buffer_key_eq key k then (k, slot) ∷ slots else (k, old) ∷ rest

  -- `entry(key).or_insert_with`
  unfoldable pub or_insert : SignalType → ℕ → Option (BufferSlot Row) → BufferSlot Row
  unfolding empty_batch
  or_insert k now none = record { data_ = empty_batch k; size_bytes = 0; created_at = now }
  or_insert k now (some slot) = slot

  -- What the push methods share: the slot grows, and a slot at its limit wakes the flush worker.
  unfoldable pub push_with :
      (SignalBatch Row → SignalBatch Row)
      → ℕ
      → BufferKey
      → SignalType
      → ℕ
      → WriteBuffer Row
      → WriteBuffer Row
  unfolding get_slot or_insert grow_slot put_slot
  push_with extend added key k now b =
      let slot = grow_slot extend added (or_insert k now (get_slot key b.slots)) in
      record b {
        slots = put_slot key slot b.slots;
        notified = b.notified || leb b.max_slot_bytes slot.size_bytes;
      }

  unfoldable pub push_spans : BufferKey → List (Row trace) → ℕ → WriteBuffer Row → WriteBuffer Row
  unfolding push_with extend_from_slice rough_size
  push_spans key rows now b =
      push_with (extend_from_slice trace rows) (rough_size (length rows) 512) key trace now b

  unfoldable pub push_metrics :
      BufferKey → List (Row metric) → ℕ → WriteBuffer Row → WriteBuffer Row
  unfolding push_with extend_from_slice rough_size
  push_metrics key rows now b =
      push_with (extend_from_slice metric rows) (rough_size (length rows) 256) key metric now b

  unfoldable pub push_logs : BufferKey → List (Row log) → ℕ → WriteBuffer Row → WriteBuffer Row
  unfolding push_with extend_from_slice rough_size
  push_logs key rows now b =
      push_with (extend_from_slice log rows) (rough_size (length rows) 384) key log now b

  unfoldable pub push_scores : BufferKey → List (Row score) → ℕ → WriteBuffer Row → WriteBuffer Row
  unfolding push_with extend_from_slice rough_size
  push_scores key rows now b =
      push_with (extend_from_slice score rows) (rough_size (length rows) 256) key score now b

  unfoldable pub push_spans_owned :
      BufferKey → List (Row trace) → ℕ → WriteBuffer Row → WriteBuffer Row
  unfolding push_with extend_owned rough_size
  push_spans_owned key rows now b =
      push_with (extend_owned trace rows) (rough_size (length rows) 512) key trace now b

  unfoldable pub push_metrics_owned :
      BufferKey → List (Row metric) → ℕ → WriteBuffer Row → WriteBuffer Row
  unfolding push_with extend_owned rough_size
  push_metrics_owned key rows now b =
      push_with (extend_owned metric rows) (rough_size (length rows) 256) key metric now b

  unfoldable pub push_logs_owned :
      BufferKey → List (Row log) → ℕ → WriteBuffer Row → WriteBuffer Row
  unfolding push_with extend_owned rough_size
  push_logs_owned key rows now b =
      push_with (extend_owned log rows) (rough_size (length rows) 384) key log now b

  unfoldable pub push_scores_owned :
      BufferKey → List (Row score) → ℕ → WriteBuffer Row → WriteBuffer Row
  unfolding push_with extend_owned rough_size
  push_scores_owned key rows now b =
      push_with (extend_owned score rows) (rough_size (length rows) 256) key score now b

  -- The push method of a signal.
  unfoldable pub push :
      (k : SignalType) → BufferKey → List (Row k) → ℕ → WriteBuffer Row → WriteBuffer Row
  push trace = push_spans
  push metric = push_metrics
  push log = push_logs
  push score = push_scores

  unfoldable pub push_owned :
      (k : SignalType) → BufferKey → List (Row k) → ℕ → WriteBuffer Row → WriteBuffer Row
  push_owned trace = push_spans_owned
  push_owned metric = push_metrics_owned
  push_owned log = push_logs_owned
  push_owned score = push_scores_owned

-- The names that the slots of a signal are stored under.
abbrev pub signal_tag : SignalType → Bytes
signal_tag trace = b't' ∷ b'r' ∷ b'a' ∷ b'c' ∷ b'e' ∷ b's' ∷ []
signal_tag metric = b'm' ∷ b'e' ∷ b't' ∷ b'r' ∷ b'i' ∷ b'c' ∷ b's' ∷ []
signal_tag log = b'l' ∷ b'o' ∷ b'g' ∷ b's' ∷ []
signal_tag score = b's' ∷ b'c' ∷ b'o' ∷ b'r' ∷ b'e' ∷ b's' ∷ []
