-- ===== src/Ingest/Breaker.antt =====
-- circuit_breaker.rs: the breaker in front of the ingest path. The clock and the measurement are read
-- through a `Probe`, one for each call; the text of a reason is left to its kind and number.
pub mod Percent
pub mod Verdicts
use zradar.Base.{
  ℕ, ◌+◌, ◌-◌, ◌*◌, ◌/◌, ◌^◌, Option, none, some, List, [], ◌∷◌, Bool, true, false, ◌&&◌, ◌||◌, not,
  ltb, leb, ◌==◌, min, if◌then◌else◌, String,
}
use zradar.Base.Results.{Result, Verdict, ok, err}
use zradar.Ingest.Status.{Status, unavailable}

-- Durations in milliseconds.
abbrev pub resource_sample_interval : ℕ
resource_sample_interval = 1000

abbrev pub queue_retry_after : ℕ
queue_retry_after = resource_sample_interval

abbrev pub resource_pressure_retry_after : ℕ
resource_pressure_retry_after = 5000

pub data Reason : Type 0 where
  disk_usage memory_usage queue_over : ℕ → Reason

pub record Trip : Type 0 where
  pub reason : Reason
  pub retry_after : ℕ

-- `UNKNOWN_PERCENT` is `u8::MAX`, `NEVER_SAMPLED` is `u64::MAX`.
abbrev pub unknown_percent : ℕ
unknown_percent = 255

abbrev pub never_sampled : ℕ
never_sampled = 2 ^ 64 - 1

pub record CircuitBreaker : Type 0 where
  pub max_disk_usage_percent : ℕ
  pub max_memory_usage_percent : ℕ
  pub max_queue_depth : ℕ
  pub queue_depth : ℕ
  pub last_sample_ms : ℕ
  pub sampling : Bool
  pub disk_usage_percent : ℕ
  pub memory_usage_percent : ℕ
  pub warned_unavailable : Bool

unfoldable pub new : ℕ → ℕ → ℕ → CircuitBreaker
new max_disk_usage_percent max_memory_usage_percent max_queue_depth = record {
  max_disk_usage_percent = max_disk_usage_percent;
  max_memory_usage_percent = max_memory_usage_percent;
  max_queue_depth = max_queue_depth;
  queue_depth = 0;
  last_sample_ms = never_sampled;
  sampling = false;
  disk_usage_percent = unknown_percent;
  memory_usage_percent = unknown_percent;
  warned_unavailable = false;
}

unfoldable pub set_queue_depth : ℕ → CircuitBreaker → CircuitBreaker
set_queue_depth depth b = record b { queue_depth = depth }

unfoldable pub known : ℕ → Option ℕ
known value = if value == unknown_percent then none else some value

pub record ResourceSample : Type 0 where
  pub disk_percent : Option ℕ
  pub memory_percent : Option ℕ

-- How the blocking task ends, as its caller sees it: with a sample, in a panic of the task, or not at
-- all since the caller is dropped at its `await`.
pub data Sampled : Type 0 where
  collected : ResourceSample → Sampled
  task_failed : Sampled
  caller_dropped : Sampled

-- Milliseconds since the breaker was made, when the call starts and when a sample is stored.
pub record Probe : Type 0 where
  pub now : ℕ
  pub later : ℕ
  pub sampled : Sampled

unfoldable pub elapsed_ms : ℕ → ℕ
elapsed_ms t = min t (never_sampled - 1)

unfoldable pub percent_or_unknown : Option ℕ → ℕ
percent_or_unknown none = unknown_percent
percent_or_unknown (some p) = p

abbrev is_none : Option ℕ → Bool
is_none none = true
is_none (some p) = false

unfoldable pub store_sample : ℕ → ResourceSample → CircuitBreaker → CircuitBreaker
unfolding percent_or_unknown elapsed_ms
store_sample later sample b = record b {
  disk_usage_percent = percent_or_unknown sample.disk_percent;
  memory_usage_percent = percent_or_unknown sample.memory_percent;
  warned_unavailable =
      b.warned_unavailable || (is_none sample.disk_percent || is_none sample.memory_percent);
  last_sample_ms = elapsed_ms later;
  sampling = false;
}

-- The breaker after the sampling, and whether its caller is still there to go on.
unfoldable pub finish_sample : Probe → Sampled → CircuitBreaker → CircuitBreaker × Bool
unfolding store_sample
finish_sample p (collected sample) b = (store_sample p.later sample b, true)
finish_sample p task_failed b =
    (store_sample p.later (record { disk_percent = none; memory_percent = none }) b, true)
finish_sample p caller_dropped b = (record b { sampling = true }, false)

unfoldable pub is_fresh : Probe → CircuitBreaker → Bool
unfolding elapsed_ms
is_fresh p b =
    not (b.last_sample_ms == never_sampled)
    && ltb (elapsed_ms p.now - b.last_sample_ms) resource_sample_interval

unfoldable pub refresh_resources_if_stale : Probe → CircuitBreaker → CircuitBreaker × Bool
unfolding is_fresh finish_sample
refresh_resources_if_stale p b =
    if is_fresh p b
    then (b, true)
    else if b.sampling
    then (b, true)
    else finish_sample p p.sampled b

abbrev pub over : Option ℕ → ℕ → Bool
over none limit = false
over (some usage) limit = ltb limit usage

unfoldable pub verdict : CircuitBreaker → Verdict Trip
unfolding known
verdict b =
    if over (known b.disk_usage_percent) b.max_disk_usage_percent
    then err (record {
      reason = disk_usage b.disk_usage_percent;
      retry_after = resource_pressure_retry_after;
    })
    else if over (known b.memory_usage_percent) b.max_memory_usage_percent
    then err (record {
      reason = memory_usage b.memory_usage_percent;
      retry_after = resource_pressure_retry_after;
    })
    else if ltb b.max_queue_depth b.queue_depth
    then err (record { reason = queue_over b.queue_depth; retry_after = queue_retry_after })
    else ok tt

-- `none`: the caller was dropped and gets no answer.
unfoldable pub evaluate : Probe → CircuitBreaker → CircuitBreaker × Option (Verdict Trip)
unfolding refresh_resources_if_stale verdict
evaluate p b =
    let (b', went_on) = refresh_resources_if_stale p b in
    (b', if went_on then some (verdict b') else none)

-- `check_status`; `text` is the format of a reason, with its prefix.
unfoldable pub check_status :
    (Reason → String) → Probe → CircuitBreaker → CircuitBreaker × Option (Verdict Status)
unfolding evaluate
check_status text p b =
    let (b', answer) = evaluate p b in
    (
      b',
      elim answer [
        | none ↦ none
        | some (ok _) ↦ some (ok tt)
        | some (err trip) ↦ some (err (unavailable (text trip.reason) trip.retry_after))
      ],
    )

-- `numerator / denominator` in percent, rounded up and at most 100; the product is a `u128`.
unfoldable pub percent_ceil : ℕ → ℕ → Option ℕ
percent_ceil numerator denominator =
    if denominator == 0
    then none
    else some (min ((numerator * 100 + (denominator - 1)) / denominator) 100)

unfoldable pub disk_usage_from_blocks : ℕ → ℕ → ℕ → Option ℕ
unfolding percent_ceil
disk_usage_from_blocks total free available =
    if ltb total free
    then none
    else let used = total - free in
      if leb (2 ^ 64) (used + available) then none else percent_ceil used (used + available)

-- `effective_memory_limit_bytes`, of the two limits as they were read.
unfoldable pub effective_memory_limit : Option ℕ → Option ℕ → Option ℕ
effective_memory_limit (some cgroup) (some mem_total) = some (min cgroup mem_total)
effective_memory_limit (some cgroup) none = some cgroup
effective_memory_limit none mem_total = mem_total
