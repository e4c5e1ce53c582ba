-- ===== src/Examples/Replays.antt =====
-- A replay of a log of two segments.
use zradar.Base.{◌≡◌, refl, [], ◌∷◌, ◌++◌, length, true, arith}
use zradar.Wal.Log.View.{files}
use zradar.Wal.Flusher.Pending.{pending}
use zradar.Wal.Replay.{Replayed, replay}
use zradar.Wal.Replay.Sends.{replay-pending}
use zradar.Examples.Data.{checksum, checksum_u32, span_record}
use zradar.Examples.Logs.{two_segments, two_segments-AllSegments, half_way}

replay-pending_example :
    let out =
      replay
        (λ b. true)
        (λ c. true)
        1_000
        checksum
        half_way.checkpoint
        (files checksum two_segments)
        (span_record ∷ []) in
    (out.result ≡ Replayed.ok (length (pending half_way.checkpoint two_segments)))
    × (out.confirmed ≡ (span_record ∷ []) ++ pending half_way.checkpoint two_segments)
    × (pending out.checkpoint two_segments ≡ [])
    × (out.dir ≡ files checksum two_segments)
replay-pending_example =
    replay-pending (λ b. true) 1_000 (λ b. refl) checksum checksum_u32 (λ c. true)
      half_way.checkpoint two_segments (span_record ∷ []) (λ c. refl) two_segments-AllSegments
      (omega arith) (omega arith)
