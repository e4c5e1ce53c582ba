-- ===== src/Wal/Replay/Sends.antt =====
-- replay.rs: a replay of a well-formed log, with a sink and a store that work.
use zradar.Base.{
  ℕ, ◌+◌, ◌^◌, ◌<◌, ◌≡◌, refl, sym, ap, ◌∙◌, ◌⊎◌, inl, inr, Option, some, List, [], ◌∷◌, ◌++◌,
  length, length-append, append_assoc, append-nil, arith, Bool, true, false, ltb, ltb_false→le,
  Bool-cases,
}
use zradar.Base.Bytes.{Bytes}
use zradar.Wal.Checkpoint.{Checkpoint, start_segment, save}
use zradar.Wal.Record.{WalRecord}
use zradar.Wal.Segment.{open_path, header}
use zradar.Wal.Segment.Frames.{frames, open_path-header, scan-frames}
use zradar.Wal.Log.View.{Segment, IsSegment, AllSegments, all_records, file_of, files}
use zradar.Wal.Flusher.{batch_of}
use zradar.Wal.Flusher.Pending.{
  pending, IdsAbove-mono, Ascending, pending_above, batch_of_settled, Ascending-middle, pending_at,
  pending_older, pending_newer,
}
use zradar.Wal.Replay.{
  ReplayState, Ended, go_on, stop, failed, panic, then_go, Replayed, replay_opened, replay_segments,
  last_good, replay_start, finish_replay, save_replayed, replay,
}
use zradar.Wal.Replay.Reads.{replay_read_sent}
use zradar.Wal.Replay.Segments.{Rising, Good}

-- In each segment the offsets do not fall.
abbrev pub AllRising : List Segment → Type 0
AllRising [] = Unit
AllRising (s ∷ ss) = Rising 0 s.records × AllRising ss

then_go_on :
    (body : ReplayState × Ended) (rest : ReplayState → ReplayState × Ended)
    → body.1 ≡ go_on
    → then_go body rest ≡ rest body.0
unfolding then_go
then_go_on (s, go_on) rest h = refl
then_go_on (s, stop) rest h = cc
then_go_on (s, failed) rest h = cc
then_go_on (s, panic) rest h = cc

module _ (sink_ok : List WalRecord → Bool) (max_bytes : ℕ)
    (sends : (batch : List WalRecord) → sink_ok batch ≡ true) where
  -- What the replay of one segment leaves: the log behind the new checkpoint is the rest of it.
  record Moved (start : Option Checkpoint) (done : List Segment) (g : Segment) (rest : List Segment)
      (s s' : ReplayState) : Type 0 where
    left : pending (last_good start s') (done ++ g ∷ rest) ≡ pending start rest
    sent : s'.confirmed ≡ s.confirmed ++ batch_of start g.id g.records
    counted : s'.total_replayed ≡ s.total_replayed + length (batch_of start g.id g.records)
    kept : s'.dir ≡ s.dir

  left_behind :
      (start : Option Checkpoint) (done : List Segment) (g : Segment) (rest : List Segment)
      (s s' : ReplayState)
      → Ascending (done ++ g ∷ rest)
      → ltb g.id (start_segment start) ≡ false
      → pending (last_good start s) (done ++ g ∷ rest) ≡ pending start (g ∷ rest)
      → s'.total_replayed ≡ s.total_replayed + length (batch_of start g.id g.records)
      → ((batch_of start g.id g.records ≡ []) × (s' ≡ s))
        ⊎ ((0 < length (batch_of start g.id g.records)) × Good g.id 0 g.records s')
      → pending (last_good start s') (done ++ g ∷ rest) ≡ pending start rest
  left_behind start done g rest s s' up newer at counted (inl (nothing, same)) = rw same (
      at
      ∙ pending_newer start g rest newer
      ∙ ap (λ (l : List WalRecord). l ++ pending start rest) nothing)
  left_behind start done g rest s s' up newer at counted (inr (some_sent, (here, low, upto))) =
      let cp : Checkpoint = record {
        last_flushed_segment_id = s'.last_good_segment_id;
        last_flushed_offset = s'.last_good_offset;
        wal_format_version = 1;
      } in
      let settled : batch_of (some cp) g.id g.records ≡ [] =
        ap (λ (id : ℕ). batch_of (some cp) id g.records) (sym here)
        ∙ batch_of_settled cp g.records upto in
      let positive : ltb 0 s'.total_replayed ≡ true = ground (arith, counted, some_sent) in
      rw positive (
        pending_at cp done g rest up here
        ∙ ap (λ (l : List WalRecord). l ++ all_records rest) settled
        ∙ sym (
            pending_above start rest (
              IdsAbove-mono (start_segment start) g.id rest (ltb_false→le _ _ newer)
                (Ascending-middle done g rest up))))

  module _ (crc32 : Bytes → ℕ) (crc32_u32 : (b : Bytes) → crc32 b < 256 ^ 4) where
    replay_segment_moves :
        (start : Option Checkpoint) (done : List Segment) (g : Segment) (rest : List Segment)
        (s : ReplayState)
        → IsSegment g
        → Rising 0 g.records
        → Ascending (done ++ g ∷ rest)
        → ltb g.id (start_segment start) ≡ false
        → pending (last_good start s) (done ++ g ∷ rest) ≡ pending start (g ∷ rest)
        → let (s', ended) =
            replay_opened sink_ok max_bytes crc32 start g.id
              (file_of crc32 g).1
              (open_path (file_of crc32 g).1)
              s in
          (ended ≡ go_on) × Moved start done g rest s s'
    unfolding replay_opened file_of
    replay_segment_moves start done g rest s h rising up newer at =
        let (on, sent, counted, kept, kind) =
          replay_read_sent sink_ok max_bytes sends start g.id
            (header g.id ++ frames crc32 g.records) g.records (13 + length (frames crc32 g.records))
            0 s rising in
        rw (open_path-header g.id (frames crc32 g.records) h.id_64) (
          rw (scan-frames crc32 crc32_u32 g.id g.records h.wire) (
            on,
            record {
              left = left_behind start done g rest s _ up newer at counted kind;
              sent = sent;
              counted = counted;
              kept = kept;
            },
          ))

    replay_segments-older :
        (start : Option Checkpoint) (g : Segment) (rest : List Segment) (s : ReplayState)
        → ltb g.id (start_segment start) ≡ true
        → replay_segments sink_ok max_bytes crc32 start (files crc32 (g ∷ rest)) s
          ≡ replay_segments sink_ok max_bytes crc32 start (files crc32 rest) s
    unfolding replay_segments files file_of
    replay_segments-older start g rest s older = rw older refl

    replay_segments-newer :
        (start : Option Checkpoint) (g : Segment) (rest : List Segment) (s : ReplayState)
        → ltb g.id (start_segment start) ≡ false
        → let file = (file_of crc32 g).1 in
          let body = replay_opened sink_ok max_bytes crc32 start g.id file (open_path file) s in
          body.1 ≡ go_on
          → replay_segments sink_ok max_bytes crc32 start (files crc32 (g ∷ rest)) s
            ≡ replay_segments sink_ok max_bytes crc32 start (files crc32 rest) body.0
    unfolding replay_segments files file_of
    replay_segments-newer start g rest s newer on = rw newer (
        then_go_on
          (replay_opened sink_ok max_bytes crc32 start g.id (file_of crc32 g).1
            (open_path (file_of crc32 g).1) s)
          (replay_segments sink_ok max_bytes crc32 start (files crc32 rest)) on)

    -- Nothing ended the loop, all behind the checkpoint is sent, and nothing is left behind the new
    -- one.
    abbrev AllSent :
        Option Checkpoint → List Segment → List Segment → ReplayState → ReplayState × Ended → Type 0
    AllSent start all ss s out =
        (out.1 ≡ go_on)
        × (pending (last_good start out.0) all ≡ [])
        × (out.0.confirmed ≡ s.confirmed ++ pending start ss)
        × (out.0.total_replayed ≡ s.total_replayed + length (pending start ss))
        × (out.0.dir ≡ s.dir)

    replay_segments-AllSent :
        (start : Option Checkpoint) (done ss : List Segment) (s : ReplayState)
        → AllSegments ss
        → AllRising ss
        → Ascending (done ++ ss)
        → pending (last_good start s) (done ++ ss) ≡ pending start ss
        → AllSent start
            (done ++ ss)
            ss
            s
            (replay_segments sink_ok max_bytes crc32 start (files crc32 ss) s)
    replay_segments-AllSent start done [] s h rising up at =
        unfold replay_segments files pending in
        (refl, at, sym (append-nil s.confirmed), omega arith, refl)
    replay_segments-AllSent start done (g ∷ rest) s h rising up at =
        let here : (done ++ g ∷ []) ++ rest ≡ done ++ g ∷ rest = append_assoc done (g ∷ []) rest in
        let file = (file_of crc32 g).1 in
        let next =
          λ (t : ReplayState)
              (left : pending (last_good start t) (done ++ g ∷ rest) ≡ pending start rest).
            rw here at (
              replay_segments-AllSent start (done ++ g ∷ []) rest t h.1 rising.1 (rw here up)
                (rw here left)) in
        elim (Bool-cases (ltb g.id (start_segment start))) [
          | inl older ↦
              rw (replay_segments-older start g rest s older, pending_older start g rest older)
                (next s (at ∙ pending_older start g rest older))
          | inr newer ↦
              let (on, moved) = replay_segment_moves start done g rest s h.0 rising.0 up newer at in
              let body = replay_opened sink_ok max_bytes crc32 start g.id file (open_path file) s in
              let (on', none_left, sent, counted, kept) = next body.0 moved.left in
              rw (replay_segments-newer start g rest s newer on, pending_newer start g rest newer)
                (
                  on',
                  none_left,
                  sent
                      ∙ ap (λ (l : List WalRecord). l ++ pending start rest) moved.sent
                      ∙ append_assoc s.confirmed (batch_of start g.id g.records)
                          (pending start rest),
                  omega (
                    arith,
                    counted,
                    moved.counted,
                    length-append (batch_of start g.id g.records) (pending start rest),
                  ),
                  kept ∙ moved.kept,
                )
        ]

    finish_replay_saves :
        (save_ok : Checkpoint → Bool) (old : Option Checkpoint) (ran : ReplayState × Ended)
        → ((cp : Checkpoint) → save_ok cp ≡ true)
        → ran.1 ≡ go_on
        → let (result, saved) = finish_replay sink_ok save_ok max_bytes crc32 old ran in
          (result ≡ Replayed.ok ran.0.total_replayed) × (saved ≡ last_good old ran.0)
    unfolding finish_replay save_replayed save
    finish_replay_saves save_ok old (s, go_on) saves on =
        elim (Bool-cases (ltb 0 s.total_replayed)) [
          | inl some_sent ↦ rw (some_sent, saves _) (refl, refl)
          | inr nothing ↦ rw nothing (refl, refl)
        ]
    finish_replay_saves save_ok old (s, stop) saves on = cc
    finish_replay_saves save_ok old (s, failed) saves on = cc
    finish_replay_saves save_ok old (s, panic) saves on = cc

    -- With a sink and a store that work, the replay of a well-formed log whose offsets do not fall
    -- within a segment sends exactly the records behind the checkpoint, in order, and returns their
    -- number. Behind the checkpoint that it leaves there are none, and the files are as they were.
    pub replay-pending :
        (save_ok : Checkpoint → Bool) (checkpoint : Option Checkpoint) (ss : List Segment)
        (confirmed : List WalRecord)
        → ((cp : Checkpoint) → save_ok cp ≡ true)
        → AllSegments ss
        → AllRising ss
        → Ascending ss
        → let out = replay sink_ok save_ok max_bytes crc32 checkpoint (files crc32 ss) confirmed in
          (out.result ≡ Replayed.ok (length (pending checkpoint ss)))
          × (out.confirmed ≡ confirmed ++ pending checkpoint ss)
          × (pending out.checkpoint ss ≡ [])
          × (out.dir ≡ files crc32 ss)
    unfolding replay replay_start
    replay-pending save_ok checkpoint ss confirmed saves h rising up =
        let s = replay_start checkpoint (files crc32 ss) confirmed in
        let ran = replay_segments sink_ok max_bytes crc32 checkpoint (files crc32 ss) s in
        let (on, none_left, sent, counted, kept) =
          replay_segments-AllSent checkpoint [] ss s h rising up refl in
        let (result, saved) = finish_replay_saves save_ok checkpoint ran saves on in
        (result ∙ ap Replayed.ok (counted ∙ omega arith), sent, rw saved none_left, kept)
