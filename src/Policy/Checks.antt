-- ===== src/Policy/Checks.antt =====
-- enforcer.rs: the checks of one limit. Each gives its decision, if it has one, and
-- the threshold events it has emitted by then.
use zradar.Base.{
  ℕ, ◌+◌, ◌-◌, ◌*◌, ◌^◌, min, Option, none, some, List, [], ◌∷◌, ◌++◌, Bool, false, not,
  if◌then◌else◌, String,
}
use zradar.Base.Integers.{ℤ, pos, leb_ℤ, saturating_add, saturating_sub, saturating_mul}
use zradar.Policy.Types.{
  Operation, query, store, PolicyLimit, rate, quota, size, retention, window, compressed_bytes,
  scanned_bytes, BlockCode, rate_limit_exceeded, quota_exceeded, size_exceeded, retention_violation,
  query_window_violation, Decision, block, IngestCtx, QueryCtx, RateSample, ThresholdEvent,
  UsageReader,
}
use zradar.Policy.Limits.{
  u64_to_i64_saturating, compare_limit_i64, compare_limit, ThresholdContext, from_ingest,
  from_query, emit_thresholds,
}

abbrev day_micros : ℕ
day_micros = 86400 * 1000000

abbrev max_u64 : ℕ
max_u64 = 2 ^ 64 - 1

-- `saturating_add` on `u64`.
abbrev pub add_u64 : ℕ → ℕ → ℕ
add_u64 a b = min (a + b) max_u64

abbrev pub unwrap_or_0 : Option ℕ → ℕ
unwrap_or_0 none = 0
unwrap_or_0 (some n) = n

abbrev pub Checked : Type 0
Checked = Option Decision × List ThresholdEvent

-- A check that comes after another runs only if that one let the request pass.
unfoldable pub or_else : Checked → Checked → Checked
or_else (some decision, events) next = (some decision, events)
or_else (none, events) (decision, more) = (decision, events ++ more)

abbrev pub passed : Checked
passed = (none, [])

-- `used.saturating_add(u64_to_i64_saturating(added.unwrap_or(0)))`, once the reader has answered.
unfoldable pub add_used : Option ℤ → Option ℕ → Option ℤ
add_used none added = none
add_used (some used) added = some (saturating_add used (u64_to_i64_saturating (unwrap_or_0 added)))

unfoldable pub query_rate_sample : QueryCtx → ℕ → Option RateSample → ℕ → ℕ → Checked
unfolding emit_thresholds compare_limit
query_rate_sample ctx limit none grace_pct hard_block_pct = passed
query_rate_sample ctx limit (some sample) grace_pct hard_block_pct =
    let observed = add_u64 sample.bytes_per_sec (unwrap_or_0 ctx.estimated_scanned_bytes) in
    (
      compare_limit observed limit grace_pct hard_block_pct rate_limit_exceeded
          "query_rate_exceeded",
      emit_thresholds (from_query ctx query "query_rate_bytes") (u64_to_i64_saturating observed)
          (u64_to_i64_saturating limit) none hard_block_pct,
    )

unfoldable pub days_micros : ℕ → ℤ
days_micros days = saturating_mul (pos days) (pos day_micros)

unfoldable pub retention_violated : QueryCtx → Option PolicyLimit → Option ℤ → Bool
unfolding days_micros leb_ℤ
retention_violated ctx (some (retention max_days)) (some start_micros) =
    not (leb_ℤ (saturating_sub ctx.now_micros (days_micros max_days)) start_micros)
retention_violated ctx _ _ = false

unfoldable pub window_violated : Option PolicyLimit → Option ℤ → Option ℤ → Bool
unfolding days_micros leb_ℤ
window_violated (some (window max_query_days)) (some start_micros) (some end_micros) =
    not (leb_ℤ (saturating_sub end_micros start_micros) (days_micros max_query_days))
window_violated _ _ _ = false

unfoldable pub check_query_range :
    QueryCtx → Option PolicyLimit → Option PolicyLimit → Option Decision
unfolding retention_violated window_violated
check_query_range ctx retention_limit query_window =
    if retention_violated ctx retention_limit ctx.start_micros
    then some (block "retention_violation" retention_violation)
    else if window_violated query_window ctx.start_micros ctx.end_micros
    then some (block "query_window_violation" query_window_violation)
    else none

-- One of the two comparisons of `check_rate`.
unfoldable pub check_rate_value : IngestCtx → Operation → ℕ → ℕ → ℕ → ℕ → String → String → Checked
unfolding emit_thresholds compare_limit
check_rate_value ctx operation observed limit grace_pct hard_block_pct limit_kind reason = (
  compare_limit observed limit grace_pct hard_block_pct rate_limit_exceeded reason,
  emit_thresholds (from_ingest ctx operation limit_kind) (u64_to_i64_saturating observed)
      (u64_to_i64_saturating limit) none hard_block_pct,
)

unfoldable pub check_rate_records : IngestCtx → Operation → RateSample → Option ℕ → ℕ → ℕ → Checked
unfolding check_rate_value
check_rate_records ctx operation sample none grace_pct hard_block_pct = passed
check_rate_records ctx operation sample (some limit) grace_pct hard_block_pct =
    check_rate_value ctx operation (add_u64 sample.records_per_sec ctx.records) limit grace_pct
      hard_block_pct "rate_records" "rate_records_exceeded"

unfoldable pub check_rate_bytes :
    IngestCtx → Operation → RateSample → Option ℕ → Option ℕ → ℕ → ℕ → Checked
unfolding check_rate_value
check_rate_bytes ctx operation sample (some limit) (some estimated_bytes) grace_pct hard_block_pct =
    check_rate_value ctx operation (add_u64 sample.bytes_per_sec estimated_bytes) limit grace_pct
      hard_block_pct "rate_bytes" "rate_bytes_exceeded"
check_rate_bytes ctx operation sample _ _ grace_pct hard_block_pct = passed

unfoldable pub check_rate_sample :
    IngestCtx → Operation → Option ℕ → Option ℕ → Option RateSample → ℕ → ℕ → Checked
unfolding or_else check_rate_records check_rate_bytes
check_rate_sample ctx operation records_per_sec bytes_per_sec none grace_pct hard_block_pct = passed
check_rate_sample ctx operation records_per_sec bytes_per_sec (some sample) grace_pct
      hard_block_pct =
    or_else (check_rate_records ctx operation sample records_per_sec grace_pct hard_block_pct) (
      check_rate_bytes ctx operation sample bytes_per_sec ctx.estimated_bytes grace_pct
        hard_block_pct)

-- The end of `check_quota`, `check_size` and `check_query_quota`: nothing is compared if the reader
-- has failed.
unfoldable pub check_observed :
    ThresholdContext → Option ℤ → ℤ → Option ℤ → ℕ → ℕ → BlockCode → String → Checked
unfolding emit_thresholds compare_limit_i64
check_observed ctx none max_bytes period_start grace_pct hard_block_pct code reason = passed
check_observed ctx (some observed) max_bytes period_start grace_pct hard_block_pct code reason = (
  compare_limit_i64 observed max_bytes grace_pct hard_block_pct code reason,
  emit_thresholds ctx observed max_bytes period_start hard_block_pct,
)

module _ (usage : UsageReader) where
  unfoldable pub check_rate : IngestCtx → Option PolicyLimit → Operation → ℕ → ℕ → Checked
  unfolding check_rate_sample
  check_rate ctx (some (rate records_per_sec bytes_per_sec)) operation grace_pct hard_block_pct =
      check_rate_sample ctx operation records_per_sec bytes_per_sec
        (usage.current_rate ctx.workspace_id ctx.signal operation) grace_pct hard_block_pct
  check_rate ctx _ operation grace_pct hard_block_pct = passed

  unfoldable pub check_quota : IngestCtx → PolicyLimit → Operation → ℕ → ℕ → Checked
  unfolding check_observed add_used
  check_quota ctx (quota max_bytes period_start period_end compressed_bytes) operation grace_pct
        hard_block_pct =
      let used =
        usage.period_used_bytes ctx.workspace_id ctx.signal operation period_start period_end in
      check_observed (from_ingest ctx operation "quota") (add_used used ctx.estimated_bytes)
        max_bytes (some period_start) grace_pct hard_block_pct quota_exceeded "quota_exceeded"
  check_quota ctx _ operation grace_pct hard_block_pct = passed

  unfoldable pub check_size : IngestCtx → Option PolicyLimit → ℕ → ℕ → Checked
  unfolding check_observed
  check_size ctx (some (size max_bytes compressed_bytes)) grace_pct hard_block_pct =
      check_observed (from_ingest ctx store "size")
        (usage.stored_compressed_bytes ctx.workspace_id ctx.signal) max_bytes none grace_pct
        hard_block_pct size_exceeded "size_exceeded"
  check_size ctx _ grace_pct hard_block_pct = passed

  -- `for quota in &resolved.quotas`
  unfoldable pub check_quotas : IngestCtx → List PolicyLimit → Operation → ℕ → ℕ → Checked
  unfolding or_else check_quota
  check_quotas ctx [] operation grace_pct hard_block_pct = passed
  check_quotas ctx (q ∷ qs) operation grace_pct hard_block_pct =
      or_else (check_quota ctx q operation grace_pct hard_block_pct)
        (check_quotas ctx qs operation grace_pct hard_block_pct)

  unfoldable pub check_query_rate : QueryCtx → Option PolicyLimit → ℕ → ℕ → Checked
  unfolding query_rate_sample
  check_query_rate ctx (some (rate records_per_sec (some limit))) grace_pct hard_block_pct =
      query_rate_sample ctx limit (usage.current_rate ctx.workspace_id ctx.signal query) grace_pct
        hard_block_pct
  check_query_rate ctx _ grace_pct hard_block_pct = passed

  unfoldable pub check_query_quota : QueryCtx → PolicyLimit → ℕ → ℕ → Checked
  unfolding check_observed add_used
  check_query_quota ctx (quota max_bytes period_start period_end scanned_bytes) grace_pct
        hard_block_pct =
      let used =
        usage.period_used_bytes ctx.workspace_id ctx.signal query period_start period_end in
      check_observed (from_query ctx query "quota") (add_used used ctx.estimated_scanned_bytes)
        max_bytes (some period_start) grace_pct hard_block_pct quota_exceeded "query_quota_exceeded"
  check_query_quota ctx _ grace_pct hard_block_pct = passed

  unfoldable pub check_query_quotas : QueryCtx → List PolicyLimit → ℕ → ℕ → Checked
  unfolding or_else check_query_quota
  check_query_quotas ctx [] grace_pct hard_block_pct = passed
  check_query_quotas ctx (q ∷ qs) grace_pct hard_block_pct =
      or_else (check_query_quota ctx q grace_pct hard_block_pct)
        (check_query_quotas ctx qs grace_pct hard_block_pct)
