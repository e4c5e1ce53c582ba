-- ===== src/Storage/FlushWorker/Accounts.antt =====
-- flush_worker.rs: where the rows that were pushed are.
use zradar.Base.{
  ◌*◌, ◌≡◌, refl, sym, ap, ◌∙◌, inl, inr, List, [], ◌∷◌, ◌++◌, append_assoc, append-nil, Bool, true,
  not, if◌then◌else◌, ◌==◌, arith, Bool-cases,
}
use zradar.Wal.Record.{SignalType, trace, metric, log, score}
use zradar.Storage.WriteBuffer.{
  BufferKey, buffer_key_eq, SignalBatch, spans, metrics, logs, scores, BufferSlot, WriteBuffer,
  batch_len, signal_tag,
}
use zradar.Storage.WriteBuffer.Drain.{
  drain_eligible, drain_all, is_eligible, remove_keys, keys_where,
}
use zradar.Storage.WriteBuffer.Drain.Splits.{
  slots_where, slots_where-Unique, slots_where-WellTagged, remove_keys-keys_where, collect-split,
}
use zradar.Storage.WriteBuffer.Rows.{
  rows_of, collect, collect-append, batches, Unique, WellTagged, batch,
}
use zradar.Storage.WriteBuffer.Pushes.{push-collect, push-keeps}
use zradar.Storage.FlushWorker.{
  Written, FlushWorker, Step, pushes, flushes, shuts_down, flush_one, flush_slot, flush_slots,
  flush_eligible, flush_remaining, run_step, run,
}

module _ {Row : SignalType → Type 0} where
  -- The rows of a signal that a run pushes under a key, in order.
  unfoldable pub pushed : (k : SignalType) → BufferKey → List (Step Row) → List (Row k)
  unfolding rows_of
  pushed k key [] = []
  pushed k key (pushes j key' rows now ∷ ss) =
      (if buffer_key_eq key key' then rows_of {Row = Row} k (batch j rows) else [])
      ++ pushed k key ss
  pushed k key (flushes secs now ∷ ss) = pushed k key ss
  pushed k key (shuts_down ∷ ss) = pushed k key ss

  -- Each push is under a key of its signal.
  abbrev pub AllTagged : List (Step Row) → Type 0
  AllTagged [] = Unit
  AllTagged (pushes k key rows now ∷ ss) = (key.signal_type ≡ signal_tag k) × AllTagged ss
  AllTagged (_ ∷ ss) = AllTagged ss

  abbrev pub IsBuffer : WriteBuffer Row → Type 0
  IsBuffer b = Unique b.slots × WellTagged b.slots

  abbrev pub rows_at : (k : SignalType) → BufferKey → FlushWorker Row → List (Row k)
  rows_at k key f = collect k key f.written.files ++ collect k key (batches f.buffer.slots)

  first-AllTagged :
      (step : Step Row) (ss : List (Step Row)) → AllTagged (step ∷ ss) → AllTagged (step ∷ [])
  first-AllTagged (pushes k key rows now) ss h = (h.0, tt)
  first-AllTagged (flushes secs now) ss h = tt
  first-AllTagged shuts_down ss h = tt

  rest-AllTagged : (step : Step Row) (ss : List (Step Row)) → AllTagged (step ∷ ss) → AllTagged ss
  rest-AllTagged (pushes k key rows now) ss h = h.1
  rest-AllTagged (flushes secs now) ss h = h
  rest-AllTagged shuts_down ss h = h

  rows_of_none :
      (k : SignalType) (b : SignalBatch Row) → (batch_len b == 0) ≡ true → rows_of k b ≡ []
  unfolding batch_len rows_of
  rows_of_none trace (spans []) h = refl
  rows_of_none metric (metrics []) h = refl
  rows_of_none log (logs []) h = refl
  rows_of_none score (scores []) h = refl
  rows_of_none trace (spans (x ∷ v)) h = absurd (ground arith)
  rows_of_none metric (metrics (x ∷ v)) h = absurd (ground arith)
  rows_of_none log (logs (x ∷ v)) h = absurd (ground arith)
  rows_of_none score (scores (x ∷ v)) h = absurd (ground arith)
  rows_of_none _ b h = refl

  module _ (write_ok : BufferKey → SignalBatch Row → Bool)
      (writes : (key : BufferKey) (b : SignalBatch Row) → write_ok key b ≡ true) where
    flush_slot-collect :
        (k : SignalType) (key key' : BufferKey) (slot : BufferSlot Row) (w : Written Row)
        → collect k key (flush_slot write_ok key' slot w).files
          ≡ collect k key w.files ++ collect k key ((key', slot.data_) ∷ [])
    unfolding flush_slot flush_one collect
    flush_slot-collect k key key' slot w = elim (Bool-cases (batch_len slot.data_ == 0)) [
      | inl nothing ↦ elim (Bool-cases (buffer_key_eq key key')) [
        | inl same ↦
            rw (nothing, rows_of_none k slot.data_ nothing, same)
              (sym (append-nil (collect k key w.files)))
        | inr other ↦ rw (nothing, other) (sym (append-nil (collect k key w.files)))
      ]
      | inr something ↦
          rw (something, writes key' slot.data_)
            (collect-append k key w.files ((key', slot.data_) ∷ []))
    ]

    flush_slots-collect :
        (k : SignalType) (key : BufferKey) (slots : List (BufferKey × BufferSlot Row))
        (w : Written Row)
        → collect k key (flush_slots write_ok slots w).files
          ≡ collect k key w.files ++ collect k key (batches slots)
    unfolding flush_slots batches
    flush_slots-collect k key [] w = unfold collect in sym (append-nil (collect k key w.files))
    flush_slots-collect k key ((key', slot) ∷ slots) w =
        let first = (key', slot.data_) ∷ [] in
        flush_slots-collect k key slots (flush_slot write_ok key' slot w)
        ∙ ap (λ (l : List (Row k)). l ++ collect k key (batches slots))
            (flush_slot-collect k key key' slot w)
        ∙ append_assoc (collect k key w.files) (collect k key first) (collect k key (batches slots))
        ∙ ap (λ (l : List (Row k)). collect k key w.files ++ l)
            (sym (collect-append k key first (batches slots)))

    -- A round of the worker moves rows to the files, and keeps the map.
    flush_drained :
        (p : BufferSlot Row → Bool) (f : FlushWorker Row)
        → IsBuffer f.buffer
        → let (drained, left) = remove_keys (keys_where p f.buffer.slots) f.buffer.slots in
          let b' : WriteBuffer Row = record f.buffer { slots = left } in
          let f' : FlushWorker Row = record {
            buffer = b';
            written = flush_slots write_ok drained f.written;
          } in
          ((k : SignalType) (key : BufferKey) → rows_at k key f' ≡ rows_at k key f)
          × IsBuffer b'
          × (left ≡ slots_where (λ s. not (p s)) f.buffer.slots)
    flush_drained p f (u, t) =
        let slots = f.buffer.slots in
        let kept : BufferSlot Row → Bool = λ s. not (p s) in
        rw (remove_keys-keys_where p slots u) (
          λ k key.
              ap (λ (l : List (Row k)). l ++ collect k key (batches (slots_where kept slots)))
                (flush_slots-collect k key (slots_where p slots) f.written)
              ∙ append_assoc (collect k key f.written.files)
                  (collect k key (batches (slots_where p slots)))
                  (collect k key (batches (slots_where kept slots)))
              ∙ ap (λ (l : List (Row k)). collect k key f.written.files ++ l)
                  (collect-split p k key slots u),
          (slots_where-Unique kept slots u, slots_where-WellTagged kept slots t),
          refl,
        )

    run_step-rows :
        (step : Step Row) (f : FlushWorker Row)
        → IsBuffer f.buffer
        → AllTagged (step ∷ [])
        → ((k : SignalType) (key : BufferKey)
            → rows_at k key (run_step write_ok step f)
              ≡ rows_at k key f ++ pushed k key (step ∷ []))
          × IsBuffer (run_step write_ok step f).buffer
    unfolding run_step pushed flush_eligible flush_remaining drain_eligible drain_all
    run_step-rows (pushes j key' rows now) f (u, t) (fits, _) = (
      λ k key.
          let more = if buffer_key_eq key key' then rows_of {Row = Row} k (batch j rows) else [] in
          ap (λ (l : List (Row k)). collect k key f.written.files ++ l)
            (push-collect j key' rows now f.buffer k key u t fits)
          ∙ sym (
              append_assoc (collect k key f.written.files) (collect k key (batches f.buffer.slots))
                more)
          ∙ ap (λ (l : List (Row k)). rows_at k key f ++ l) (sym (append-nil more)),
      push-keeps j key' rows now f.buffer u t fits,
    )
    run_step-rows (flushes secs now) f h _ =
        let p = is_eligible f.buffer.max_slot_bytes (secs * 1_000_000_000) now in
        let (same, kept, _) = flush_drained p f h in
        (λ k key. same k key ∙ sym (append-nil (rows_at k key f)), kept)
    run_step-rows shuts_down f h _ =
        let (same, kept, _) = flush_drained (λ s. true) f h in
        (λ k key. same k key ∙ sym (append-nil (rows_at k key f)), kept)

    pushed-cons :
        (k : SignalType) (key : BufferKey) (step : Step Row) (ss : List (Step Row))
        → pushed k key (step ∷ ss) ≡ pushed k key (step ∷ []) ++ pushed k key ss
    unfolding pushed
    pushed-cons k key (pushes j key' rows now) ss =
        let more = if buffer_key_eq key key' then rows_of {Row = Row} k (batch j rows) else [] in
        sym (ap (λ (l : List (Row k)). l ++ pushed k key ss) (append-nil more))
    pushed-cons k key (flushes secs now) ss = refl
    pushed-cons k key shuts_down ss = refl

    -- In any run of pushes, flushes and shutdowns whose writes succeed, the rows of a signal and key
    -- that are in files, followed by those that wait, are those that there were and the pushed ones:
    -- none is lost or doubled, and their order is kept. The map of slots stays well-formed.
    pub run-rows :
        (ss : List (Step Row)) (f : FlushWorker Row)
        → IsBuffer f.buffer
        → AllTagged ss
        → ((k : SignalType) (key : BufferKey)
            → rows_at k key (run write_ok ss f) ≡ rows_at k key f ++ pushed k key ss)
          × IsBuffer (run write_ok ss f).buffer
    unfolding run
    run-rows [] f h tagged = unfold pushed in (λ k key. sym (append-nil (rows_at k key f)), h)
    run-rows (step ∷ ss) f h tagged =
        let (moved, kept) = run_step-rows step f h (first-AllTagged step ss tagged) in
        let (rest, still) =
          run-rows ss (run_step write_ok step f) kept (rest-AllTagged step ss tagged) in
        (
          λ k key.
              rest k key
              ∙ ap (λ (l : List (Row k)). l ++ pushed k key ss) (moved k key)
              ∙ append_assoc (rows_at k key f) (pushed k key (step ∷ [])) (pushed k key ss)
              ∙ ap (λ (l : List (Row k)). rows_at k key f ++ l) (sym (pushed-cons k key step ss)),
          still,
        )

    slots_where_none :
        (slots : List (BufferKey × BufferSlot Row)) → slots_where (λ s. not true) slots ≡ []
    unfolding slots_where
    slots_where_none [] = refl
    slots_where_none ((key, s) ∷ slots) = slots_where_none slots

    -- The shutdown leaves no slot, and the files hold all rows of each signal and key.
    pub flush_remaining_complete :
        (f : FlushWorker Row)
        → IsBuffer f.buffer
        → let f' = flush_remaining write_ok f in
          (f'.buffer.slots ≡ [])
          × ((k : SignalType) (key : BufferKey) → collect k key f'.written.files ≡ rows_at k key f)
    unfolding flush_remaining drain_all collect batches
    flush_remaining_complete f h =
        let (same, kept, left) = flush_drained (λ s. true) f h in
        let empty = left ∙ slots_where_none f.buffer.slots in
        (
          empty,
          λ k key.
              sym (append-nil (collect k key (flush_remaining write_ok f).written.files))
              ∙ ap
                  (λ (l : List (BufferKey × BufferSlot Row)).
                    collect k key (flush_remaining write_ok f).written.files
                    ++ collect k key (batches l))
                  (sym empty)
              ∙ same k key,
        )
