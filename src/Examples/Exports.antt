-- ===== src/Examples/Exports.antt =====
-- Caps, breaker and guard at concrete values.
use zradar.Base.{
  ℕ, ◌+◌, ◌-◌, ◌*◌, ◌≤◌, ◌<◌, ◌≡◌, ◌↔◌, ◌⊎◌, refl, none, some, List, [], ◌∷◌, Bool, true, false,
  leb, arith,
}
use zradar.Base.Integers.{pos}
use zradar.Base.Results.{ok}
use zradar.Ingest.Caps.{validate_trace_request, validate_metrics_request, validate_logs_request}
use zradar.Ingest.Caps.Totals.{validate_requests-totals}
use zradar.Ingest.Breaker.{
  CircuitBreaker, ResourceSample, collected, caller_dropped, Probe, new, evaluate, is_fresh,
  disk_usage_from_blocks,
}
use zradar.Ingest.Breaker.Percent.{disk_usage_from_blocks_least}
use zradar.Ingest.Breaker.Verdicts.{evaluate_samples, calls, calls_dropped}
use zradar.Ingest.Guard.{WorkspaceSettings, enforce_workspace_settings_and_get}
use zradar.Ingest.Guard.Answers.{enforce_workspace_settings_and_get_ok}

-- Two resource groups, of two scopes and of none.
abbrev request : List (List (List ℕ))
request = ((1 ∷ 2 ∷ []) ∷ (3 ∷ []) ∷ []) ∷ [] ∷ []

validate_requests-totals_example :
    ((validate_trace_request request ≡ ok tt) ↔ ((2 ≤ 1024) × (2 ≤ 4096) × (3 ≤ 10000)))
    × ((validate_metrics_request request ≡ ok tt) ↔ ((2 ≤ 1024) × (2 ≤ 4096) × (3 ≤ 10000)))
    × ((validate_logs_request request ≡ ok tt) ↔ ((2 ≤ 1024) × (2 ≤ 4096) × (3 ≤ 10000)))
validate_requests-totals_example = validate_requests-totals request

abbrev breaker : CircuitBreaker
breaker = new 90 80 100

abbrev sample : ResourceSample
sample = record { disk_percent = some 40; memory_percent = none }

abbrev measured : Probe
measured = record { now = 5; later = 7; sampled = collected sample }

abbrev dropped : Probe
dropped = record { now = 5; later = 7; sampled = caller_dropped }

evaluate_samples_example :
    ((evaluate measured breaker).1 ≡ some (ok tt)) ↔ ((40 ≤ 90) × Unit {0} × (0 ≤ 100))
evaluate_samples_example =
    unfold new in
    evaluate_samples measured breaker sample (unfold is_fresh in refl) refl refl (omega arith) tt

calls_dropped_example :
    let b' = calls (dropped ∷ measured ∷ measured ∷ []) breaker in
    (b'.disk_usage_percent ≡ breaker.disk_usage_percent)
    × (b'.memory_usage_percent ≡ breaker.memory_usage_percent)
    × (b'.last_sample_ms ≡ breaker.last_sample_ms)
calls_dropped_example =
    calls_dropped dropped (measured ∷ measured ∷ []) breaker (unfold is_fresh new in refl)
      (unfold new in refl) refl

disk_usage_from_blocks_least_example :
    (p : ℕ) × (disk_usage_from_blocks 1000 300 250 ≡ some p)
    × (p ≤ 100)
    × ((1000 - 300) * 100 ≤ p * ((1000 - 300) + 250))
    × (p * ((1000 - 300) + 250) < (1000 - 300) * 100 + ((1000 - 300) + 250))
disk_usage_from_blocks_least_example =
    disk_usage_from_blocks_least 1000 300 250 (omega arith) (omega arith) (omega arith)

abbrev settings : WorkspaceSettings
settings = record { blocked = false; max_ingestion_rate = some (pos 10) }

-- A limiter with room for twice the limit.
abbrev full_bucket : ℕ → ℕ → Bool
full_bucket limit records = leb records (limit * 2)

settings_passed :
    enforce_workspace_settings_and_get (some (ok (some settings))) (some full_bucket) 20
    ≡ ok (some settings)
unfolding enforce_workspace_settings_and_get
settings_passed = refl

enforce_workspace_settings_and_get_ok_example :
    (settings.blocked ≡ false)
    × ((settings.max_ingestion_rate ≡ none)
        ⊎ ((limit : ℕ) × (settings.max_ingestion_rate ≡ some (pos limit))
            × (full_bucket limit 20 ≡ true)))
enforce_workspace_settings_and_get_ok_example =
    enforce_workspace_settings_and_get_ok (some (ok (some settings))) full_bucket 20 settings
      settings_passed
