-- ===== src/Examples/Passes.antt =====
-- A flusher and a janitor at work on a log of two segments.
use zradar.Base.{refl, List, [], ◌∷◌, true, false, arith}
use zradar.Wal.Log.View.{files}
use zradar.Wal.Background.{
  Pass, flush, cleanup, Background, run_passes, Accounts, run_passes-Accounts,
}
use zradar.Examples.Data.{checksum, checksum_u32, span_record, log_record}
use zradar.Examples.Logs.{two_segments, two_segments-AllSegments, half_way, half_way_total}

abbrev at_work : Background
at_work = record { dir = files checksum two_segments; flusher = half_way }

at_work-Accounts : Accounts checksum (span_record ∷ log_record ∷ []) at_work
at_work-Accounts = record {
  segments = two_segments;
  on_disk = refl;
  whole = two_segments-AllSegments;
  ascending = omega arith;
  total = half_way_total;
}

-- The sink refuses once; then the second segment is flushed, and the first is deleted.
abbrev passes : List Pass
passes =
    flush (λ batch. false) 1 5
    ∷ cleanup (λ id. true) 1
    ∷ flush (λ batch. true) 1 5
    ∷ cleanup (λ id. true) 1
    ∷ []

run_passes-Accounts_example :
    Accounts checksum
      (span_record ∷ log_record ∷ [])
      (run_passes checksum (λ cp. true) passes at_work)
run_passes-Accounts_example =
    run_passes-Accounts checksum (λ cp. true) checksum_u32 (λ cp. refl) passes at_work
      (span_record ∷ log_record ∷ []) at_work-Accounts
