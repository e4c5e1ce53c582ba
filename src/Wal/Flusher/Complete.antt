-- ===== src/Wal/Flusher/Complete.antt =====
-- flusher.rs: a pass that nothing stops flushes all of the log.
use zradar.Base.{
  ℕ, ◌^◌, ◌≤◌, ◌<◌, ◌≡◌, refl, sym, ◌∙◌, ap, inl, inr, Option, none, some, List, [], ◌∷◌, ◌++◌,
  append_assoc, append-nil, arith, Bool, true, ltb, ◌==◌, if◌then◌else◌, Bool-cases,
}
use zradar.Base.Bytes.{Bytes}
use zradar.Wal.Checkpoint.{Checkpoint, start_segment}
use zradar.Wal.Record.{WalRecord}
use zradar.Wal.Log.View.{Segment, AllSegments, files}
use zradar.Wal.Flusher.{
  batch_of, max_offset_in_batch, FlushState, continue, stop, flush_batch, flush_segments,
  flush_once,
}
use zradar.Wal.Flusher.Pending.{pending, IdsAbove, Ascending, Ascending-middle, pending_older}
use zradar.Wal.Flusher.Pass.{
  then_next-Flushed, flush_batch-Flushed, flush_segments-file, flush_segments-exact,
  update_lag-keeps,
}

abbrev pub IdsUpTo : ℕ → List Segment → Type 0
IdsUpTo n [] = Unit
IdsUpTo n (s ∷ ss) = (s.id ≤ n) × IdsUpTo n ss

nothing_newer :
    (n : ℕ) (g : Segment) (ss : List Segment)
    → (g.id == n) ≡ true
    → IdsAbove g.id ss
    → IdsUpTo n ss
    → ss ≡ []
nothing_newer n g [] e a b = refl
nothing_newer n g (s ∷ ss) e a b = absurd (let same : g.id ≡ n = ground arith in omega arith)

module _ (crc32 : Bytes → ℕ) (sink_ok : List WalRecord → Bool) (save_ok : Checkpoint → Bool)
    (crc32_u32 : (b : Bytes) → crc32 b < 256 ^ 4)
    (sends : (batch : List WalRecord) → sink_ok batch ≡ true)
    (saves : (cp : Checkpoint) → save_ok cp ≡ true) where
  flush_batch_flow :
      (active id : ℕ) (m : Option ℕ) (batch : List WalRecord) (s : FlushState)
      → (flush_batch crc32 sink_ok save_ok active id m batch s).1
        ≡ (if id == active then stop else continue)
  unfolding flush_batch
  flush_batch_flow active id none batch s = refl
  flush_batch_flow active id (some m) batch s = rw (sends batch, saves _)

  flush_segments_complete :
      (start : Option Checkpoint) (active : ℕ) (done ss : List Segment) (s : FlushState)
      → AllSegments ss
      → Ascending (done ++ ss)
      → IdsUpTo active ss
      → pending s.checkpoint (done ++ ss) ≡ pending start ss
      → pending
          (flush_segments crc32 sink_ok save_ok start active (files crc32 ss) s).0.checkpoint
          (done ++ ss)
        ≡ []
  flush_segments_complete start active done [] s h up le at =
      unfold flush_segments files pending in at
  flush_segments_complete start active done (g ∷ rest) s h up le at =
      let here : (done ++ g ∷ []) ++ rest ≡ done ++ g ∷ rest = append_assoc done (g ∷ []) rest in
      let next =
        λ (t : FlushState) (left : pending t.checkpoint (done ++ g ∷ rest) ≡ pending start rest).
          rw here at (
            flush_segments_complete start active (done ++ g ∷ []) rest t h.1 (rw here up) le.1
              (rw here left)) in
      rw (flush_segments-file crc32 sink_ok save_ok crc32_u32 start active g rest s h.0)
        (elim (Bool-cases (ltb g.id (start_segment start))) [
          | inl older ↦ rw older (next s (at ∙ pending_older start g rest older))
          | inr newer ↦
              let batch = batch_of start g.id g.records in
              let P = λ (t : FlushState). pending t.checkpoint (done ++ g ∷ rest) ≡ [] in
              let flow = flush_batch_flow active g.id (max_offset_in_batch none batch) batch s in
              rw newer (
                then_next-Flushed crc32 sink_ok save_ok crc32_u32 P
                  (flush_segments crc32 sink_ok save_ok start active (files crc32 rest))
                  (flush_batch-Flushed crc32 sink_ok save_ok crc32_u32 start active done g rest s _
                    saves up newer at refl)
                  (λ failing. ground (arith, flow, failing))
                  (λ t left grown. (
                    (λ stopped.
                        let last : (g.id == active) ≡ true = ground (arith, flow, stopped) in
                        left
                        ∙ ap (pending start) (
                            nothing_newer active g rest last (Ascending-middle done g rest up) le.1)
                        ∙ unfold pending in refl),
                    next t left,
                  )))
        ])

  -- With a sink that accepts every batch and a store that saves every checkpoint, a pass over
  -- well-formed segments in ascending order, with ids up to the active one, confirms what is left of
  -- the history and leaves nothing behind the checkpoint for the next.
  pub flush_once_complete :
      (active next_offset : ℕ) (ss : List Segment) (s : FlushState) (history : List WalRecord)
      → AllSegments ss
      → Ascending ss
      → IdsUpTo active ss
      → s.confirmed ++ pending s.checkpoint ss ≡ history
      → let s' = (flush_once crc32 sink_ok save_ok (files crc32 ss) active next_offset s).0 in
        (s'.confirmed ≡ history) × (pending s'.checkpoint ss ≡ [])
  unfolding flush_once files
  flush_once_complete active next_offset [] s history h up le total =
      unfold pending in (sym (append-nil s.confirmed) ∙ total, refl)
  flush_once_complete active next_offset (g ∷ ss) s history h up le total =
      let r = flush_segments crc32 sink_ok save_ok s.checkpoint active (files crc32 (g ∷ ss)) s in
      let (kept, settled) = update_lag-keeps crc32 sink_ok save_ok crc32_u32 next_offset r in
      let none_left = flush_segments_complete s.checkpoint active [] (g ∷ ss) s h up le refl in
      let exact =
        flush_segments-exact crc32 sink_ok save_ok crc32_u32 s.checkpoint active [] (g ∷ ss) s
          history saves h up refl total in
      (
        kept
            ∙ sym (append-nil r.0.confirmed)
            ∙ ap (λ (l : List WalRecord). r.0.confirmed ++ l) (sym none_left)
            ∙ exact,
        ap (λ (c : Option Checkpoint). pending c (g ∷ ss)) settled ∙ none_left,
      )
