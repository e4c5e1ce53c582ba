-- ===== src/Storage/WriteBuffer/Drain/Due.antt =====
-- write_buffer.rs: which slots `drain_eligible` takes, and that it loses no row.
use zradar.Base.{
  ℕ, ◌+◌, ◌-◌, ◌*◌, ◌≤◌, ◌<◌, ◌≡◌, ◌↔◌, ◌⊎◌, inl, inr, sym, ap, ◌∙◌, List, [], ◌∷◌, ◌++◌, Bool,
  true, arith, Bool-cases, not,
}
use zradar.Base.Members.{Mem_cons}
use zradar.Wal.Record.{SignalType}
use zradar.Storage.WriteBuffer.{BufferKey, BufferSlot, WriteBuffer}
use zradar.Storage.WriteBuffer.Drain.{is_eligible, drain_eligible, count_rows, record_count}
use zradar.Storage.WriteBuffer.Drain.Splits.{
  slots_where, remove_keys-keys_where, collect-split, count_rows-split,
}
use zradar.Storage.WriteBuffer.Rows.{collect, batches, Unique}
use mathlib.Core.List.{Memᴰ}

module _ {Row : SignalType → Type 0} where
  Mem-slots_where :
      (p : BufferSlot Row → Bool) (e : BufferKey × BufferSlot Row)
      (slots : List (BufferKey × BufferSlot Row))
      → Memᴰ e (slots_where p slots)
      → Memᴰ e slots × (p (e.1) ≡ true)
  unfolding slots_where
  Mem-slots_where p e [] at = elim at [ ]
  Mem-slots_where p e (f ∷ slots) at =
      let later = λ (rest : Memᴰ e (slots_where p slots)).
        let (there, picked) = Mem-slots_where p e slots rest in
        let both : Memᴰ e (f ∷ slots) × (p (e.1) ≡ true) = (Memᴰ.tail there, picked) in both in
      elim (Bool-cases (p (f.1))) [
        | inr out ↦ later (rw out at at)
        | inl kept ↦ elim (Mem_cons e f (slots_where p slots) (rw kept at at)) [
          | inr rest ↦ later rest
          | inl same ↦
              (Memᴰ.head same, ap (λ (x : BufferKey × BufferSlot Row). p (x.1)) same ∙ kept)
        ]
      ]

  slots_where-Mem :
      (p : BufferSlot Row → Bool) (e : BufferKey × BufferSlot Row)
      (slots : List (BufferKey × BufferSlot Row))
      → Memᴰ e slots
      → p (e.1) ≡ true
      → Memᴰ e (slots_where p slots)
  unfolding slots_where
  slots_where-Mem p e [] at picked = elim at [ ]
  slots_where-Mem p e (f ∷ slots) at picked = elim (Bool-cases (p (f.1))) [
    | inl kept ↦ elim (Mem_cons e f slots at) [
      | inl same ↦ rw kept (Memᴰ.head same)
      | inr rest ↦ rw kept (Memᴰ.tail (slots_where-Mem p e slots rest picked))
    ]
    | inr out ↦ elim (Mem_cons e f slots at) [
      | inl same ↦
          let kept : p (f.1) ≡ true =
            ap (λ (x : BufferKey × BufferSlot Row). p (x.1)) (sym same) ∙ picked in
          cc
      | inr rest ↦ rw out (slots_where-Mem p e slots rest picked)
    ]
  ]

  slots_where_iff :
      (p : BufferSlot Row → Bool) (P : Type 0) (e : BufferKey × BufferSlot Row)
      (slots : List (BufferKey × BufferSlot Row))
      → (p (e.1) ≡ true) ↔ P
      → Memᴰ e (slots_where p slots) ↔ (Memᴰ e slots × P)
  slots_where_iff p P e slots (to, back) = (
    λ at. let (there, picked) = Mem-slots_where p e slots at in (there, to picked),
    λ both. slots_where-Mem p e slots (both.0) (back (both.1)),
  )

  is_eligible_iff :
      (max_bytes ttl now : ℕ) (s : BufferSlot Row)
      → (is_eligible max_bytes ttl now s ≡ true)
        ↔ ((max_bytes ≤ s.size_bytes) ⊎ (ttl ≤ now - s.created_at))
  unfolding is_eligible
  is_eligible_iff max_bytes ttl now s = ground arith

  not-is_eligible_iff :
      (max_bytes ttl now : ℕ) (s : BufferSlot Row)
      → (not (is_eligible max_bytes ttl now s) ≡ true)
        ↔ ((s.size_bytes < max_bytes) × (now - s.created_at < ttl))
  unfolding is_eligible
  not-is_eligible_iff max_bytes ttl now s = ground arith

  -- Draining takes exactly the slots whose bytes have reached the limit or whose age has reached the
  -- interval, and leaves exactly those below both. The rows of every key, in order, and their number,
  -- are in what is drained and in what stays. No two slots have one key.
  pub drain_eligible-splits :
      (flush_interval_secs now : ℕ) (b : WriteBuffer Row)
      → Unique b.slots
      → let ttl = flush_interval_secs * 1_000_000_000 in
        let (drained, b') = drain_eligible flush_interval_secs now b in
        ((e : BufferKey × BufferSlot Row)
          → Memᴰ e drained ↔ (
              Memᴰ e b.slots
              × ((b.max_slot_bytes ≤ (e.1).size_bytes) ⊎ (ttl ≤ now - (e.1).created_at))))
        × ((e : BufferKey × BufferSlot Row)
            → Memᴰ e b'.slots ↔ (
                Memᴰ e b.slots
                × (((e.1).size_bytes < b.max_slot_bytes) × (now - (e.1).created_at < ttl))))
        × ((k : SignalType) (key : BufferKey)
            → collect k key (batches drained) ++ collect k key (batches b'.slots)
              ≡ collect k key (batches b.slots))
        × (count_rows drained + record_count b' ≡ record_count b)
  unfolding drain_eligible record_count
  drain_eligible-splits flush_interval_secs now b u =
      let ttl = flush_interval_secs * 1_000_000_000 in
      let p = is_eligible b.max_slot_bytes ttl now in
      let stays = λ (s : BufferSlot Row). not (p s) in
      let split = remove_keys-keys_where p b.slots u in
      rw split (
        λ e. slots_where_iff p _ e b.slots (is_eligible_iff b.max_slot_bytes ttl now (e.1)),
        λ e. slots_where_iff stays _ e b.slots (not-is_eligible_iff b.max_slot_bytes ttl now (e.1)),
        λ k key. collect-split p k key b.slots u,
        count_rows-split p b.slots,
      )
