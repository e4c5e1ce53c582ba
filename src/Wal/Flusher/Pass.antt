-- ===== src/Wal/Flusher/Pass.antt =====
-- flusher.rs: what a pass does to a well-formed log, whatever the sink answers.
use zradar.Base.{
  ℕ, ◌^◌, ◌<◌, ◌≡◌, refl, sym, ◌∙◌, ap, ◌⊎◌, inl, inr, Option, none, some, List, [], ◌∷◌, ◌++◌,
  append_assoc, append-nil, Bool, true, false, ltb, ltb_false→le, ◌==◌, if◌then◌else◌, Bool-cases,
}
use zradar.Base.Bytes.{Bytes}
use zradar.Wal.Checkpoint.{Checkpoint, start_segment, save}
use zradar.Wal.Record.{WalRecord}
use zradar.Wal.Segment.{open_path}
use zradar.Wal.Segment.Frames.{frames, open_path-header, scan-frames}
use zradar.Wal.Log.View.{Segment, IsSegment, AllSegments, all_records, file_of, files}
use zradar.Wal.Flusher.{
  batch_of, max_offset_in_batch, FlushState, Flow, continue, stop, failed, panic, flush_batch,
  flush_opened, then_next, flush_segments, flush_once, update_lag,
}
use zradar.Wal.Flusher.Pending.{
  pending, IdsAbove-mono, Ascending, pending_above, batch_of_after, max_offset_none,
  Ascending-middle, pending_at, pending_older, pending_newer,
}

stop_or_continue :
    (b : Bool)
    → ((if b then stop else continue) ≡ continue) ⊎ ((if b then stop else continue) ≡ stop)
stop_or_continue true = inr refl
stop_or_continue false = inl refl

module _ (crc32 : Bytes → ℕ) (sink_ok : List WalRecord → Bool) (save_ok : Checkpoint → Bool)
    (crc32_u32 : (b : Bytes) → crc32 b < 256 ^ 4) where
  -- A file of whole records is read, and its batch flushed.
  flush_opened-file :
      (start : Option Checkpoint) (active : ℕ) (g : Segment) (s : FlushState)
      → IsSegment g
      → flush_opened crc32 sink_ok save_ok start active g.id (open_path (file_of crc32 g).1) s ≡ (
          let batch = batch_of start g.id g.records in
          flush_batch crc32 sink_ok save_ok active g.id (max_offset_in_batch none batch) batch s)
  unfolding flush_opened file_of
  flush_opened-file start active g s h =
      rw (open_path-header g.id (frames crc32 g.records) h.id_64)
        (rw (scan-frames crc32 crc32_u32 g.id g.records h.wire))

  -- What one segment's batch does: the sink refuses it and nothing changes, or it is confirmed and
  -- the checkpoint moves behind it.
  pub data Flushed (start : Option Checkpoint) (done : List Segment) (g : Segment)
      (rest : List Segment) (s : FlushState) : FlushState → Flow → Type 0 where
    refused : Flushed start done g rest s s failed
    moved :
        {s' : FlushState} {flow : Flow}
        → (flow ≡ continue) ⊎ (flow ≡ stop)
        → pending s'.checkpoint (done ++ g ∷ rest) ≡ pending start rest
        → s'.confirmed ≡ s.confirmed ++ batch_of start g.id g.records
        → Flushed start done g rest s s' flow

  pub flush_batch-Flushed :
      (start : Option Checkpoint) (active : ℕ) (done : List Segment) (g : Segment)
      (rest : List Segment) (s : FlushState) (m : Option ℕ)
      → ((cp : Checkpoint) → save_ok cp ≡ true)
      → Ascending (done ++ g ∷ rest)
      → ltb g.id (start_segment start) ≡ false
      → pending s.checkpoint (done ++ g ∷ rest) ≡ pending start (g ∷ rest)
      → max_offset_in_batch none (batch_of start g.id g.records) ≡ m
      → let (s', flow) =
          flush_batch crc32 sink_ok save_ok active g.id m (batch_of start g.id g.records) s in
        Flushed start done g rest s s' flow
  unfolding flush_batch pending
  flush_batch-Flushed start active done g rest s none saves up newer at top =
      let nothing = max_offset_none _ top in
      moved (stop_or_continue (g.id == active)) (at ∙ rw (newer, nothing) refl)
        (rw nothing (sym (append-nil s.confirmed)))
  flush_batch-Flushed start active done g rest s (some m) saves up newer at top =
      elim (Bool-cases (sink_ok (batch_of start g.id g.records))) [
        | inr no_sink ↦ rw no_sink refused
        | inl sent ↦
            let cp : Checkpoint = record {
              last_flushed_segment_id = g.id;
              last_flushed_offset = m;
              wal_format_version = 1;
            } in
            let left : pending (some cp) (done ++ g ∷ rest) ≡ pending start rest =
              pending_at cp done g rest up refl
              ∙ ap (λ (l : List WalRecord). l ++ all_records rest)
                  (batch_of_after start g.records cp top)
              ∙ sym (
                  pending_above start rest (
                    IdsAbove-mono (start_segment start) g.id rest (ltb_false→le _ _ newer)
                      (Ascending-middle done g rest up))) in
            rw (sent, saves cp) (unfold save in moved (stop_or_continue (g.id == active)) left refl)
      ]

  -- One round of the loop, on a file of whole records.
  pub flush_segments-file :
      (start : Option Checkpoint) (active : ℕ) (g : Segment) (rest : List Segment) (s : FlushState)
      → IsSegment g
      → flush_segments crc32 sink_ok save_ok start active (files crc32 (g ∷ rest)) s ≡ (
          let batch = batch_of start g.id g.records in
          if ltb g.id (start_segment start)
          then flush_segments crc32 sink_ok save_ok start active (files crc32 rest) s
          else then_next
              (flush_batch crc32 sink_ok save_ok active g.id
                (max_offset_in_batch none batch)
                batch
                s)
              (flush_segments crc32 sink_ok save_ok start active (files crc32 rest)))
  unfolding flush_segments files file_of
  flush_segments-file start active g rest s h =
      ap
        (λ (body : FlushState × Flow).
          if ltb g.id (start_segment start)
          then flush_segments crc32 sink_ok save_ok start active (files crc32 rest) s
          else then_next body
              (flush_segments crc32 sink_ok save_ok start active (files crc32 rest)))
        (flush_opened-file start active g s h)

  -- What holds of a state holds at the end, if it passes the rest of the loop.
  pub then_next-Flushed :
      {start : Option Checkpoint} {done : List Segment} {g : Segment} {rest : List Segment}
      {s s' : FlushState} {flow : Flow} (P : FlushState → Type 0)
      (loop : FlushState → FlushState × Flow)
      → Flushed start done g rest s s' flow
      → (flow ≡ failed → P s)
      → ((t : FlushState)
          → pending t.checkpoint (done ++ g ∷ rest) ≡ pending start rest
          → t.confirmed ≡ s.confirmed ++ batch_of start g.id g.records
          → (flow ≡ stop → P t) × P (loop t).0)
      → P (then_next (s', flow) loop).0
  unfolding then_next
  then_next-Flushed P loop refused now next = now refl
  then_next-Flushed {s' = t} P loop (moved (inl e) left grown) now next = rw e (next t left grown).1
  then_next-Flushed {s' = t} P loop (moved (inr e) left grown) now next =
      rw e ((next t left grown).0 e)

  -- The records that the sink has confirmed, and those behind the checkpoint, are all there are:
  -- each once, and in order.
  pub flush_segments-exact :
      (start : Option Checkpoint) (active : ℕ) (done ss : List Segment) (s : FlushState)
      (all : List WalRecord)
      → ((cp : Checkpoint) → save_ok cp ≡ true)
      → AllSegments ss
      → Ascending (done ++ ss)
      → pending s.checkpoint (done ++ ss) ≡ pending start ss
      → s.confirmed ++ pending start ss ≡ all
      → let s' = (flush_segments crc32 sink_ok save_ok start active (files crc32 ss) s).0 in
        s'.confirmed ++ pending s'.checkpoint (done ++ ss) ≡ all
  flush_segments-exact start active done [] s all saves h up at total =
      unfold flush_segments files in rw at total
  flush_segments-exact start active done (g ∷ rest) s all saves h up at total =
      let here : (done ++ g ∷ []) ++ rest ≡ done ++ g ∷ rest = append_assoc done (g ∷ []) rest in
      let next =
        λ (t : FlushState) (left : pending t.checkpoint (done ++ g ∷ rest) ≡ pending start rest)
            (sum : t.confirmed ++ pending start rest ≡ all).
          rw here at (
            flush_segments-exact start active (done ++ g ∷ []) rest t all saves h.1 (rw here up)
              (rw here left) sum) in
      rw (flush_segments-file start active g rest s h.0)
        (elim (Bool-cases (ltb g.id (start_segment start))) [
          | inl older ↦ rw older (
              next s (at ∙ pending_older start g rest older) (
                ap (λ (l : List WalRecord). s.confirmed ++ l)
                  (sym (pending_older start g rest older))
                ∙ total))
          | inr newer ↦
              let batch = batch_of start g.id g.records in
              let P =
                λ (t : FlushState). t.confirmed ++ pending t.checkpoint (done ++ g ∷ rest) ≡ all in
              let sum : (s.confirmed ++ batch) ++ pending start rest ≡ all =
                append_assoc s.confirmed batch (pending start rest)
                ∙ ap (λ (l : List WalRecord). s.confirmed ++ l)
                    (sym (pending_newer start g rest newer))
                ∙ total in
              rw newer (
                then_next-Flushed P
                  (flush_segments crc32 sink_ok save_ok start active (files crc32 rest))
                  (flush_batch-Flushed start active done g rest s _ saves up newer at refl)
                  (λ _. rw at total)
                  (λ t left grown.
                    let now : t.confirmed ++ pending start rest ≡ all = rw grown sum in
                    ((λ _. rw left now), next t left now)))
        ])

  pub update_lag-keeps :
      (next_offset : ℕ) (r : FlushState × Flow)
      → ((update_lag next_offset r).0.confirmed ≡ r.0.confirmed)
        × ((update_lag next_offset r).0.checkpoint ≡ r.0.checkpoint)
  unfolding update_lag
  update_lag-keeps n (s, continue) = (refl, refl)
  update_lag-keeps n (s, stop) = (refl, refl)
  update_lag-keeps n (s, failed) = (refl, refl)
  update_lag-keeps n (s, panic) = (refl, refl)

  -- A pass over well-formed segments in ascending order, when every save of the checkpoint succeeds
  -- and whatever the sink answers, keeps count: if what was confirmed and what lies behind the
  -- checkpoint make up a history, in order and each record once, then so they do after the pass.
  pub flush_once-exact :
      (active next_offset : ℕ) (ss : List Segment) (s : FlushState) (history : List WalRecord)
      → ((cp : Checkpoint) → save_ok cp ≡ true)
      → AllSegments ss
      → Ascending ss
      → s.confirmed ++ pending s.checkpoint ss ≡ history
      → let s' = (flush_once crc32 sink_ok save_ok (files crc32 ss) active next_offset s).0 in
        s'.confirmed ++ pending s'.checkpoint ss ≡ history
  unfolding flush_once files
  flush_once-exact active next_offset [] s history saves h up total = total
  flush_once-exact active next_offset (g ∷ ss) s history saves h up total =
      let r = flush_segments crc32 sink_ok save_ok s.checkpoint active (files crc32 (g ∷ ss)) s in
      let (kept, settled) = update_lag-keeps next_offset r in
      (λ i. kept i ++ pending (settled i) (g ∷ ss))
      ∙ flush_segments-exact s.checkpoint active [] (g ∷ ss) s history saves h up refl total
