-- ===== src/Storage/WriteBuffer/Rows.antt =====
-- write_buffer.rs: the rows that the slots hold for a key, and how a push adds to them.
use zradar.Base.{
  ℕ, ◌≡◌, refl, sym, ap, ◌∙◌, inl, inr, Option, none, some, List, [], ◌∷◌, ◌++◌, append_assoc,
  append-nil, Bool, true, false, ◌&&◌, if◌then◌else◌, arith, Bool-cases,
}
use zradar.Base.Bytes.{Bytes, bytes_eq_refl, bytes_eq→≡}
use zradar.Wal.Record.{SignalType, trace, metric, log, score}
use zradar.Storage.WriteBuffer.{
  BufferKey, buffer_key_eq, SignalBatch, spans, metrics, logs, scores, BufferSlot, get_slot,
  put_slot, signal_tag,
}

pub buffer_key_eq_refl : (a : BufferKey) → buffer_key_eq a a ≡ true
unfolding buffer_key_eq
buffer_key_eq_refl a = ground (
  arith,
  bytes_eq_refl a.workspace_id,
  bytes_eq_refl a.signal_type,
  bytes_eq_refl a.stream_name,
  bytes_eq_refl a.hour,
)

and-true : (a b : Bool) → (a && b) ≡ true → (a ≡ true) × (b ≡ true)
and-true true b h = (refl, h)
and-true false b h = cc

pub buffer_key_eq→≡ : (a b : BufferKey) → buffer_key_eq a b ≡ true → a ≡ b
unfolding buffer_key_eq
buffer_key_eq→≡ a b h =
    let (abc, hours) = and-true _ _ h in
    let (ab, streams) = and-true _ _ abc in
    let (spaces, signals) = and-true _ _ ab in
    let w = bytes_eq→≡ a.workspace_id b.workspace_id spaces in
    let g = bytes_eq→≡ a.signal_type b.signal_type signals in
    let s = bytes_eq→≡ a.stream_name b.stream_name streams in
    let t = bytes_eq→≡ a.hour b.hour hours in
    λ i. record { workspace_id = w i; signal_type = g i; stream_name = s i; hour = t i }

pub buffer_key_eq_sym : (a b : BufferKey) → buffer_key_eq a b ≡ false → buffer_key_eq b a ≡ false
buffer_key_eq_sym a b h = elim (Bool-cases (buffer_key_eq b a)) [
  | inr different ↦ different
  | inl same ↦
      let e : buffer_key_eq a b ≡ true =
        ap (λ (x : BufferKey). buffer_key_eq a x) (buffer_key_eq→≡ b a same)
        ∙ buffer_key_eq_refl a in
      cc
]

first_byte : Bytes → ℕ
first_byte [] = 0
first_byte (b ∷ bs) = b

pub signal_tag_inj : (j k : SignalType) → signal_tag j ≡ signal_tag k → j ≡ k
unfolding first_byte
signal_tag_inj trace trace h = refl
signal_tag_inj metric metric h = refl
signal_tag_inj log log h = refl
signal_tag_inj score score h = refl
signal_tag_inj _ _ h = absurd (let same = ap first_byte h in omega arith)

module _ {Row : SignalType → Type 0} where
  abbrev pub signal_of : SignalBatch Row → SignalType
  signal_of (spans v) = trace
  signal_of (metrics v) = metric
  signal_of (logs v) = log
  signal_of (scores v) = score

  abbrev pub batch : (k : SignalType) → List (Row k) → SignalBatch Row
  batch trace = spans
  batch metric = metrics
  batch log = logs
  batch score = scores

  -- The rows of one signal in a batch.
  unfoldable pub rows_of : (k : SignalType) → SignalBatch Row → List (Row k)
  rows_of trace (spans v) = v
  rows_of metric (metrics v) = v
  rows_of log (logs v) = v
  rows_of score (scores v) = v
  rows_of _ b = []

  -- The rows of a signal that some batches hold for a key, in order.
  unfoldable pub collect :
      (k : SignalType) → BufferKey → List (BufferKey × SignalBatch Row) → List (Row k)
  unfolding rows_of
  collect k key [] = []
  collect k key ((key', b) ∷ bs) =
      let rest = collect k key bs in if buffer_key_eq key key' then rows_of k b ++ rest else rest

  unfoldable pub batches : List (BufferKey × BufferSlot Row) → List (BufferKey × SignalBatch Row)
  batches [] = []
  batches ((key, s) ∷ slots) = (key, s.data_) ∷ batches slots

  abbrev pub Absent : BufferKey → List (BufferKey × BufferSlot Row) → Type 0
  Absent key [] = Unit
  Absent key ((k, s) ∷ slots) = (buffer_key_eq key k ≡ false) × Absent key slots

  -- A map: no key has two slots.
  abbrev pub Unique : List (BufferKey × BufferSlot Row) → Type 0
  Unique [] = Unit
  Unique ((k, s) ∷ slots) = Absent k slots × Unique slots

  -- Each slot holds the signal that its key names.
  abbrev pub WellTagged : List (BufferKey × BufferSlot Row) → Type 0
  WellTagged [] = Unit
  WellTagged ((k, s) ∷ slots) = (k.signal_type ≡ signal_tag (signal_of s.data_)) × WellTagged slots

  pub collect-Absent :
      (k : SignalType) (key : BufferKey) (slots : List (BufferKey × BufferSlot Row))
      → Absent key slots
      → collect k key (batches slots) ≡ []
  unfolding collect batches
  collect-Absent k key [] h = refl
  collect-Absent k key ((k', s) ∷ slots) h = rw (h.0) (collect-Absent k key slots h.1)

  pub collect-append :
      (k : SignalType) (key : BufferKey) (cs bs : List (BufferKey × SignalBatch Row))
      → collect k key (cs ++ bs) ≡ collect k key cs ++ collect k key bs
  unfolding collect
  collect-append k key [] bs = refl
  collect-append k key ((k', b) ∷ cs) bs = elim (Bool-cases (buffer_key_eq key k')) [
    | inl same ↦ rw same (
        ap (λ (l : List (Row k)). rows_of k b ++ l) (collect-append k key cs bs)
        ∙ sym (append_assoc (rows_of k b) (collect k key cs) (collect k key bs)))
    | inr different ↦ rw different (collect-append k key cs bs)
  ]

  unfoldable pub rows_in : (k : SignalType) → Option (BufferSlot Row) → List (Row k)
  rows_in k none = []
  rows_in k (some s) = rows_of k s.data_

  pub collect-get_slot :
      (k : SignalType) (key : BufferKey) (slots : List (BufferKey × BufferSlot Row))
      → Unique slots
      → collect k key (batches slots) ≡ rows_in k (get_slot key slots)
  unfolding collect batches get_slot rows_in
  collect-get_slot k key [] u = refl
  collect-get_slot k key ((k', s) ∷ slots) u = elim (Bool-cases (buffer_key_eq key k')) [
    | inr different ↦ rw different (collect-get_slot k key slots u.1)
    | inl same ↦
        let absent : Absent key slots = rw (buffer_key_eq→≡ key k' same) (u.0) in
        rw same (
          ap (λ (l : List (Row k)). rows_of k s.data_ ++ l) (collect-Absent k key slots absent)
          ∙ append-nil (rows_of k s.data_))
  ]

  pub get_slot-put_slot :
      (key' key : BufferKey) (slot : BufferSlot Row) (slots : List (BufferKey × BufferSlot Row))
      → get_slot key' (put_slot key slot slots)
        ≡ (if buffer_key_eq key' key then some slot else get_slot key' slots)
  unfolding get_slot put_slot
  get_slot-put_slot key' key slot [] = refl
  get_slot-put_slot key' key slot ((k, old) ∷ slots) = elim (Bool-cases (buffer_key_eq key k)) [
    | inl same ↦
        let e = ap (λ (x : BufferKey). buffer_key_eq key' x) (buffer_key_eq→≡ key k same) in
        rw same (ground (arith, e))
    | inr different ↦ elim (Bool-cases (buffer_key_eq key' k)) [
      | inr other ↦ rw (different, other) (get_slot-put_slot key' key slot slots)
      | inl here ↦
          let apart : buffer_key_eq key' key ≡ false =
            ap (λ (x : BufferKey). buffer_key_eq x key) (buffer_key_eq→≡ key' k here)
            ∙ buffer_key_eq_sym key k different in
          rw (different, here, apart) refl
    ]
  ]

  put_slot-Absent :
      (k key : BufferKey) (slot : BufferSlot Row) (slots : List (BufferKey × BufferSlot Row))
      → buffer_key_eq k key ≡ false
      → Absent k slots
      → Absent k (put_slot key slot slots)
  unfolding put_slot
  put_slot-Absent k key slot [] other h = (other, tt)
  put_slot-Absent k key slot ((k', old) ∷ slots) other h =
      ground (arith, put_slot-Absent k key slot slots other h.1)

  pub put_slot-Unique :
      (key : BufferKey) (slot : BufferSlot Row) (slots : List (BufferKey × BufferSlot Row))
      → Unique slots
      → Unique (put_slot key slot slots)
  unfolding put_slot
  put_slot-Unique key slot [] u = (tt, tt)
  put_slot-Unique key slot ((k, old) ∷ slots) u = elim (Bool-cases (buffer_key_eq key k)) [
    | inl same ↦ rw same u
    | inr different ↦ rw different (
      put_slot-Absent k key slot slots (buffer_key_eq_sym key k different) u.0,
      put_slot-Unique key slot slots u.1,
    )
  ]

  pub put_slot-WellTagged :
      (key : BufferKey) (slot : BufferSlot Row) (slots : List (BufferKey × BufferSlot Row))
      → key.signal_type ≡ signal_tag (signal_of slot.data_)
      → WellTagged slots
      → WellTagged (put_slot key slot slots)
  unfolding put_slot
  put_slot-WellTagged key slot [] fits t = (fits, tt)
  put_slot-WellTagged key slot ((k, old) ∷ slots) fits t = elim (Bool-cases (buffer_key_eq key k)) [
    | inl same ↦
        let e = buffer_key_eq→≡ key k same in
        rw same (sym (ap (λ (x : BufferKey). x.signal_type) e) ∙ fits, t.1)
    | inr different ↦ rw different (t.0, put_slot-WellTagged key slot slots fits t.1)
  ]

  pub get_slot-WellTagged :
      (key : BufferKey) (slots : List (BufferKey × BufferSlot Row)) (s : BufferSlot Row)
      → WellTagged slots
      → get_slot key slots ≡ some s
      → key.signal_type ≡ signal_tag (signal_of s.data_)
  unfolding get_slot
  get_slot-WellTagged key [] s t h = cc
  get_slot-WellTagged key ((k, x) ∷ slots) s t h = elim (Bool-cases (buffer_key_eq key k)) [
    | inl same ↦
        let e = buffer_key_eq→≡ key k same in
        let found : Path (Option (BufferSlot Row)) (some x) (some s) = rw same at h in
        let x_is_s : x ≡ s =
          ap (λ (o : Option (BufferSlot Row)). elim o [ none ↦ x | some y ↦ y ]) found in
        ap (λ (q : BufferKey). q.signal_type) e
        ∙ t.0
        ∙ ap (λ (y : BufferSlot Row). signal_tag (signal_of y.data_)) x_is_s
    | inr different ↦ get_slot-WellTagged key slots s t.1 (rw different at h)
  ]
