-- ===== src/Wal/Replay/Segments.antt =====
-- replay.rs: what the replay of one segment of whole records does, with a sink that works.
use zradar.Base.{
  ℕ, ◌+◌, ◌≤◌, ◌<◌, ◌≡◌, refl, sym, ap, ◌∙◌, ◌⊎◌, inl, inr, Option, none, some, List, [], ◌∷◌, ◌++◌,
  length, length-append, append_assoc, append-nil, arith, Bool, true, false, leb, if◌then◌else◌,
  Bool-cases,
}
use zradar.Wal.Checkpoint.{Checkpoint}
use zradar.Wal.Record.{WalRecord}
use zradar.Wal.Flusher.{skips, batch_of, raise_max}
use zradar.Wal.Flusher.Pending.{AtMost, skips-le}
use zradar.Wal.Replay.{
  ReplayState, Batch, empty_batch, is_empty, push_record, mark_good, Ended, go_on, then_go,
  send_batch, send_full, take_record, take_records, send_rest,
}

-- The offsets do not fall, from `m` on.
abbrev pub Rising : ℕ → List WalRecord → Type 0
Rising m [] = Unit
Rising m (r ∷ rs) = (m ≤ r.assigned_offset) × Rising r.assigned_offset rs

Rising-le : (k m : ℕ) (rs : List WalRecord) → k ≤ m → Rising m rs → Rising k rs
Rising-le k m [] h up = tt
Rising-le k m (r ∷ rs) h up = (omega arith, up.1)

snoc :
    (xs ys : List WalRecord) (r : WalRecord) (zs : List WalRecord)
    → xs ++ (ys ++ r ∷ []) ++ zs ≡ xs ++ ys ++ r ∷ zs
snoc xs ys r zs =
    ap (λ (l : List WalRecord). l ++ zs) (sym (append_assoc xs ys (r ∷ [])))
    ∙ append_assoc (xs ++ ys) (r ∷ []) zs

snoc_moved :
    (xs ys : List WalRecord) (r : WalRecord) (zs : List WalRecord)
    → (xs ++ (ys ++ r ∷ [])) ++ [] ++ zs ≡ xs ++ ys ++ r ∷ zs
snoc_moved xs ys r zs =
    ap (λ (l : List WalRecord). l ++ zs) (append-nil (xs ++ (ys ++ r ∷ []))) ∙ snoc xs ys r zs

-- Something of the segment is taken, the last of it at the offset `m`: the batch holds it, or it has
-- been sent.
abbrev Taken : ℕ → ℕ → ReplayState → Batch → Type 0
Taken id m s b =
    ((is_empty b.records ≡ false) × (b.max_offset ≡ some m))
    ⊎ ((is_empty b.records ≡ true)
        × (b.max_offset ≡ none)
        × (s.last_good_segment_id ≡ id)
        × (s.last_good_offset ≡ m))

-- The locals name the segment, and an offset that is at least `m` and those of the records.
abbrev pub Good : ℕ → ℕ → List WalRecord → ReplayState → Type 0
Good id m rs s =
    (s.last_good_segment_id ≡ id) × (m ≤ s.last_good_offset) × AtMost s.last_good_offset rs

is_empty-append : (rs : List WalRecord) (r : WalRecord) → is_empty (rs ++ r ∷ []) ≡ false
is_empty-append [] r = refl
is_empty-append (x ∷ rs) r = refl

-- The offset is at least the checkpoint's, if that is in the segment.
abbrev AtLeast : Option Checkpoint → ℕ → ℕ → Type 0
AtLeast start id m =
    (c : Checkpoint) → start ≡ some c → id ≡ c.last_flushed_segment_id → c.last_flushed_offset ≤ m

skips_not-AtLeast :
    (start : Option Checkpoint) (id : ℕ) (r : WalRecord)
    → skips start id r ≡ false
    → AtLeast start id r.assigned_offset
unfolding skips
skips_not-AtLeast start id r taken = λ c e at. ground arith

raise_max_next :
    (id m : ℕ) (r : WalRecord) (s : ReplayState) (b : Batch)
    → Taken id m s b
    → m ≤ r.assigned_offset
    → raise_max b.max_offset r.assigned_offset ≡ some r.assigned_offset
unfolding raise_max
raise_max_next id m r s b (inl h) le = rw (h.1) (ap some (omega arith))
raise_max_next id m r s b (inr h) le = rw (h.1) refl

module _ (sink_ok : List WalRecord → Bool) (max_bytes : ℕ)
    (sends : (batch : List WalRecord) → sink_ok batch ≡ true) where
  -- A batch sent.
  abbrev sent : ℕ → Batch → ReplayState → ReplayState
  sent id b s = mark_good id b.max_offset (record s {
    total_replayed = s.total_replayed + length b.records;
    confirmed = s.confirmed ++ b.records;
  })

  -- One record on.
  next : Option Checkpoint → ℕ → WalRecord → ReplayState → Batch → ReplayState × Batch
  next start id r s b =
      if skips start id r
      then (s, b)
      else if leb max_bytes (push_record r b).bytes
      then (sent id (push_record r b) s, empty_batch)
      else (s, push_record r b)

  take_records-next :
      (start : Option Checkpoint) (id : ℕ) (r : WalRecord) (rs : List WalRecord) (s : ReplayState)
      (b : Batch)
      → take_records sink_ok max_bytes start id (r ∷ rs) (s, b)
        ≡ take_records sink_ok max_bytes start id rs (next start id r s b)
  unfolding take_records take_record send_full send_batch then_go next
  take_records-next start id r rs s b = elim (Bool-cases (skips start id r)) [
    | inl skipped ↦ rw skipped refl
    | inr taken ↦ elim (Bool-cases (leb max_bytes (push_record r b).bytes)) [
      | inl full ↦ rw (taken, full, sends (push_record r b).records) refl
      | inr room ↦ rw (taken, room) refl
    ]
  ]

  -- What holds after the rest of the records, in each of the three cases of the first.
  take_records-cases :
      (start : Option Checkpoint) (id : ℕ) (r : WalRecord) (rs : List WalRecord) (s : ReplayState)
      (b : Batch) (P : (ReplayState × Batch) × Ended → Type 0)
      → (skips start id r ≡ true → P (take_records sink_ok max_bytes start id rs (s, b)))
      → (skips start id r ≡ false
          → P (
              take_records sink_ok max_bytes start id rs (sent id (push_record r b) s, empty_batch))
            × P (take_records sink_ok max_bytes start id rs (s, push_record r b)))
      → P (take_records sink_ok max_bytes start id (r ∷ rs) (s, b))
  unfolding next
  take_records-cases start id r rs s b P skip take =
      rw (take_records-next start id r rs s b) (elim (Bool-cases (skips start id r)) [
        | inl skipped ↦ rw skipped (skip skipped)
        | inr taken ↦ elim (Bool-cases (leb max_bytes (push_record r b).bytes)) [
          | inl full ↦ rw (taken, full) (take taken).0
          | inr room ↦ rw (taken, room) (take taken).1
        ]
      ])

  -- Nothing ends the loop over the records, and what is confirmed or held at its end is what was so
  -- before it, and the records that it took.
  pub take_records_sent :
      (start : Option Checkpoint) (id : ℕ) (rs : List WalRecord) (s : ReplayState) (b : Batch)
      → let (sb, ended) = take_records sink_ok max_bytes start id rs (s, b) in
        (ended ≡ go_on)
        × (sb.0.confirmed ++ sb.1.records ≡ s.confirmed ++ b.records ++ batch_of start id rs)
        × (sb.0.total_replayed + length sb.1.records
            ≡ s.total_replayed + length b.records + length (batch_of start id rs))
        × (sb.0.dir ≡ s.dir)
  unfolding take_records batch_of next
  take_records_sent start id [] s b =
      (refl, sym (append-nil (s.confirmed ++ b.records)), omega arith, refl)
  take_records_sent start id (r ∷ rs) s b =
      take_records-cases start id r rs s b
        (λ out.
          (out.1 ≡ go_on)
          × (out.0.0.confirmed ++ out.0.1.records
              ≡ s.confirmed ++ b.records ++ batch_of start id (r ∷ rs))
          × (out.0.0.total_replayed + length out.0.1.records
              ≡ s.total_replayed + length b.records + length (batch_of start id (r ∷ rs)))
          × (out.0.0.dir ≡ s.dir))
        (λ skipped. rw skipped (take_records_sent start id rs s b))
        (λ taken.
          let b' = push_record r b in
          let grown = length-append b.records (r ∷ []) in
          let (on, same, count, kept) = take_records_sent start id rs (sent id b' s) empty_batch in
          let (on', same', count', kept') = take_records_sent start id rs s b' in
          rw taken (
            (
              on,
              same ∙ snoc_moved s.confirmed b.records r (batch_of start id rs),
              omega (arith, count, grown),
              kept,
            ),
            (
              on',
              same' ∙ snoc s.confirmed b.records r (batch_of start id rs),
              omega (arith, count', grown),
              kept',
            ),
          ))

  -- The locals after the rest of the batch is sent.
  abbrev pub after_rest : ℕ → ReplayState × Batch → ReplayState
  after_rest id sb = (send_rest sink_ok max_bytes id sb).0.0

  after_rest-Good :
      (id m : ℕ) (s : ReplayState) (b : Batch)
      → Taken id m s b
      → Good id m [] (after_rest id (s, b))
  unfolding send_rest send_batch
  after_rest-Good id m s b (inl h) = ground (arith, sends b.records)
  after_rest-Good id m s b (inr h) = ground arith

  sent-Taken :
      (id : ℕ) (r : WalRecord) (s : ReplayState) (b : Batch)
      → raise_max b.max_offset r.assigned_offset ≡ some r.assigned_offset
      → Taken id r.assigned_offset (sent id (push_record r b) s) empty_batch
  unfolding push_record
  sent-Taken id r s b raised = inr (rw raised (refl, refl, refl, refl))

  -- Once something of the segment is taken, the locals end at the segment and its highest offset.
  take_records-Good :
      (start : Option Checkpoint) (id : ℕ) (rs : List WalRecord) (m : ℕ) (s : ReplayState)
      (b : Batch)
      → Taken id m s b
      → Rising m rs
      → AtLeast start id m
      → Good id m rs (after_rest id (take_records sink_ok max_bytes start id rs (s, b)).0)
  unfolding take_records next
  take_records-Good start id [] m s b had up low = after_rest-Good id m s b had
  take_records-Good start id (r ∷ rs) m s b had up low =
      take_records-cases start id r rs s b (λ out. Good id m (r ∷ rs) (after_rest id out.0))
        (λ skipped.
          let (here, above, upto) =
            take_records-Good start id rs m s b had (Rising-le m r.assigned_offset rs up.0 up.1)
              low in
          let under = skips-le start id r m skipped low in
          (here, above, (omega (arith, above, under), upto)))
        (λ taken.
          let b' = push_record r b in
          let raised = raise_max_next id m r s b had up.0 in
          let low' : AtLeast start id r.assigned_offset =
            λ c e at. omega (arith, low c e at, up.0) in
          let (here, above, upto) =
            take_records-Good start id rs r.assigned_offset (sent id b' s) empty_batch
              (sent-Taken id r s b raised) up.1 low' in
          let (here', above', upto') =
            take_records-Good start id rs r.assigned_offset s b'
              (inl (is_empty-append b.records r, raised)) up.1 low' in
          (
            (here, omega (arith, above, up.0), (above, upto)),
            (here', omega (arith, above', up.0), (above', upto')),
          ))

  -- If nothing of the segment is taken, the locals stay.
  pub take_records-first :
      (start : Option Checkpoint) (id : ℕ) (rs : List WalRecord) (m : ℕ) (s : ReplayState)
      → Rising m rs
      → let s' = after_rest id (take_records sink_ok max_bytes start id rs (s, empty_batch)).0 in
        ((batch_of start id rs ≡ []) × (s' ≡ s))
        ⊎ ((0 < length (batch_of start id rs)) × Good id m rs s')
  unfolding take_records batch_of
  take_records-first start id [] m s up = inl (refl, unfold send_rest in refl)
  take_records-first start id (r ∷ rs) m s up =
      take_records-cases start id r rs s empty_batch
        (λ out.
          ((batch_of start id (r ∷ rs) ≡ []) × (after_rest id out.0 ≡ s))
          ⊎ ((0 < length (batch_of start id (r ∷ rs))) × Good id m (r ∷ rs) (after_rest id out.0)))
        (λ skipped. rw skipped (elim (take_records-first start id rs r.assigned_offset s up.1) [
          | inl nothing ↦ inl nothing
          | inr (some_taken, (here, above, upto)) ↦
              inr (some_taken, (here, omega (arith, above, up.0), (above, upto)))
        ]))
        (λ taken.
          let raised : raise_max none r.assigned_offset ≡ some r.assigned_offset =
            unfold raise_max in refl in
          let low = skips_not-AtLeast start id r taken in
          let (here, above, upto) =
            take_records-Good start id rs r.assigned_offset (sent id (push_record r empty_batch) s)
              empty_batch (sent-Taken id r s empty_batch raised) up.1 low in
          let (here', above', upto') =
            take_records-Good start id rs r.assigned_offset s (push_record r empty_batch)
              (inl (is_empty-append [] r, raised)) up.1 low in
          rw taken (
            inr (omega arith, (here, omega (arith, above, up.0), (above, upto))),
            inr (omega arith, (here', omega (arith, above', up.0), (above', upto'))),
          ))
