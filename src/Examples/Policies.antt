-- ===== src/Examples/Policies.antt =====
-- Limits, requests and decisions at concrete values.
use zradar.Base.{ℕ, ◌+◌, ◌*◌, ◌^◌, ◌≤◌, ◌≡◌, ◌↔◌, refl, none, some, [], ◌∷◌, false, arith}
use zradar.Base.Integers.{pos, leb_ℤ, saturating_add, saturating_sub, saturating_mul, ◌*ℤ◌}
use zradar.Policy.Types.{
  SignalKind, traces, Operation, ingest, rate, quota, size, retention, window, compressed_bytes,
  scanned_bytes, ResolvedPolicy, default, quota_exceeded, allow, block, IngestCtx, QueryCtx,
  UsageReader,
}
use zradar.Policy.Limits.{compare_limit_i64}
use zradar.Policy.Limits.Zones.{compare_limit_i64_fails_closed, compare_limit_i64_exact}
use zradar.Policy.Checks.{check_rate, check_quotas, check_size}
use zradar.Policy.Enforcer.{check_ingest, check_query}
use zradar.Policy.Enforcer.Allowed.{
  RateRespected, QuotasRespected, SizeRespected, check_ingest_allow,
}
use zradar.Policy.Enforcer.Audits.{IsAudited, check_ingest-IsAudited}
use zradar.Policy.Enforcer.Query.{check_query_allow}

abbrev usage : UsageReader
usage = record {
  current_rate = λ w s o.
      some (record { records_per_sec = 5; bytes_per_sec = 500; sampled_at_micros = pos 7 });
  period_used_bytes = λ w s o start end. some (pos 900);
  stored_compressed_bytes = λ w s. some (pos 400);
}

abbrev ingest_limits : ResolvedPolicy
ingest_limits = record default {
  rate_limit = some (rate (some 100) (some 10000));
  quotas = quota (pos 1000) (pos 0) none compressed_bytes ∷ [];
  size_limit = some (size (pos 500) compressed_bytes);
}

abbrev query_limits : ResolvedPolicy
query_limits = record default {
  quotas = quota (pos 1000) (pos 0) none scanned_bytes ∷ [];
  retention_limit = some (retention 30);
  query_window = some (window 7);
}

abbrev resolve : ℕ → SignalKind → Operation → ResolvedPolicy
resolve w s ingest = ingest_limits
resolve w s _ = query_limits

abbrev export : IngestCtx
export = record {
  workspace_id = 1;
  signal = traces;
  records = 10;
  estimated_bytes = some 50;
  now_micros = pos 1700000000000000;
}

-- One that the quota does not have room for.
abbrev large_export : IngestCtx
large_export = record export { estimated_bytes = some 200 }

abbrev dashboard : QueryCtx
dashboard = record {
  workspace_id = 1;
  signal = traces;
  start_micros = some (pos 1699999000000000);
  end_micros = some (pos 1699999900000000);
  estimated_scanned_bytes = some 30;
  now_micros = pos 1700000000000000;
}

export_allowed : (check_ingest usage resolve export).decision ≡ allow
unfolding check_ingest check_rate check_quotas check_size saturating_add saturating_mul
export_allowed = refl

large_export_blocked :
    (check_ingest usage resolve large_export).decision ≡ block "quota_exceeded" quota_exceeded
unfolding check_ingest check_rate check_quotas check_size saturating_add saturating_mul
large_export_blocked = refl

dashboard_allowed : (check_query usage resolve dashboard).decision ≡ allow
unfolding check_query saturating_add saturating_sub saturating_mul
dashboard_allowed = refl

check_ingest_allow_example :
    (ingest_limits.blocked ≡ false)
    × RateRespected usage export ingest_limits.rate_limit
    × QuotasRespected usage export ingest_limits.quotas
    × SizeRespected usage export ingest_limits.size_limit
check_ingest_allow_example = check_ingest_allow usage resolve export export_allowed

check_ingest-IsAudited_example :
    IsAudited 1 traces (pos 1700000000000000) (check_ingest usage resolve large_export)
check_ingest-IsAudited_example = check_ingest-IsAudited usage resolve large_export

check_query_allow_example :
    (1700000000000000 ≤ 1699999000000000 + 30 * 86400000000)
    × (1699999900000000 ≤ 1699999000000000 + 7 * 86400000000)
check_query_allow_example =
    check_query_allow usage resolve dashboard 1700000000000000 1699999000000000 1699999900000000 30
      7 refl refl refl (omega arith) (omega arith) refl refl dashboard_allowed

compare_limit_i64_fails_closed_example :
    compare_limit_i64 (pos (2 ^ 62)) (pos 7) 101 103 quota_exceeded "quota_exceeded"
    ≡ some (block "quota_exceeded" quota_exceeded)
compare_limit_i64_fails_closed_example =
    compare_limit_i64_fails_closed (pos (2 ^ 62)) (pos 7) 101 103 quota_exceeded "quota_exceeded"
      (unfold leb_ℤ ◌*ℤ◌ in refl)

compare_limit_i64_exact_example :
    let d = compare_limit_i64 (pos 101) (pos 100) 102 103 quota_exceeded "quota_exceeded" in
    ((d ≡ none) ↔ (101 ≤ 100))
    × ((d ≡ some (block "quota_exceeded" quota_exceeded)) ↔ (100 * 103 ≤ 101 * 100))
compare_limit_i64_exact_example =
    compare_limit_i64_exact 101 100 102 103 quota_exceeded "quota_exceeded" (omega arith)
      (omega arith) (omega arith) (omega arith) (omega arith) (omega arith)
