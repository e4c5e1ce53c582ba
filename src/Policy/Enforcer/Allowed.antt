-- ===== src/Policy/Enforcer/Allowed.antt =====
-- enforcer.rs: what holds of a request that `check_ingest` lets through.
use zradar.Base.{
  ℕ, ◌≤◌, ◌≡◌, ◌≢◌, refl, ap, inl, inr, Option, none, some, List, [], ◌∷◌, true, false, Bool-cases,
  arith, String,
}
use zradar.Base.Integers.{ℤ, leb_ℤ, saturate, saturating_mul, ◌*ℤ◌}
use zradar.Policy.Types.{
  SignalKind, Operation, ingest, PolicyLimit, rate, quota, size, retention, window,
  compressed_bytes, scanned_bytes, ResolvedPolicy, BlockCode, rate_limit_exceeded, allow, block,
  IngestCtx, RateSample, UsageReader,
}
use zradar.Policy.Limits.{ThresholdContext, compare_limit, compare_limit_i64, u64_to_i64_saturating}
use zradar.Policy.Checks.{
  add_u64, add_used, Checked, or_else, passed, check_rate, check_rate_sample, check_rate_records,
  check_rate_bytes, check_rate_value, check_observed, check_quota, check_quotas, check_size,
}
use zradar.Policy.Enforcer.{check_ingest, settle, Outcome, audited}

-- A value that could be measured is at most the limit.
abbrev pub AtMost : Option ℤ → ℤ → Type 0
AtMost none limit = Unit
AtMost (some observed) limit = leb_ℤ observed limit ≡ true

abbrev pub UpTo : ℕ → Option ℕ → Type 0
UpTo observed none = Unit
UpTo observed (some limit) = observed ≤ limit

abbrev pub BytesUpTo : ℕ → Option ℕ → Option ℕ → Type 0
BytesUpTo sampled none limit = Unit
BytesUpTo sampled (some estimated) limit = UpTo (add_u64 sampled estimated) limit

abbrev pub SampleUpTo : IngestCtx → Option ℕ → Option ℕ → Option RateSample → Type 0
SampleUpTo ctx records_per_sec bytes_per_sec none = Unit
SampleUpTo ctx records_per_sec bytes_per_sec (some sample) =
    UpTo (add_u64 sample.records_per_sec ctx.records) records_per_sec
    × BytesUpTo sample.bytes_per_sec ctx.estimated_bytes bytes_per_sec

module _ (usage : UsageReader) (ctx : IngestCtx) where
  abbrev pub RateRespected : Option PolicyLimit → Type 0
  RateRespected (some (rate records_per_sec bytes_per_sec)) =
      SampleUpTo ctx records_per_sec bytes_per_sec
        (usage.current_rate ctx.workspace_id ctx.signal ingest)
  RateRespected _ = Unit

  abbrev pub QuotaRespected : PolicyLimit → Type 0
  QuotaRespected (quota max_bytes period_start period_end compressed_bytes) =
      let used =
        usage.period_used_bytes ctx.workspace_id ctx.signal ingest period_start period_end in
      AtMost (add_used used ctx.estimated_bytes) max_bytes
  QuotaRespected _ = Unit

  abbrev pub QuotasRespected : List PolicyLimit → Type 0
  QuotasRespected [] = Unit
  QuotasRespected (q ∷ qs) = QuotaRespected q × QuotasRespected qs

  abbrev pub SizeRespected : Option PolicyLimit → Type 0
  SizeRespected (some (size max_bytes compressed_bytes)) =
      AtMost (usage.stored_compressed_bytes ctx.workspace_id ctx.signal) max_bytes
  SizeRespected _ = Unit

compare_limit_i64-none :
    (observed limit : ℤ) (grace hard : ℕ) (code : BlockCode) (reason : String)
    → compare_limit_i64 observed limit grace hard code reason ≡ none
    → leb_ℤ observed limit ≡ true
unfolding compare_limit_i64
compare_limit_i64-none observed limit grace hard code reason h = ground arith

-- Though both values are cut to an `i64`, what passes is at most the limit as it was given.
compare_limit-none :
    (observed limit grace hard : ℕ) (code : BlockCode) (reason : String)
    → compare_limit observed limit grace hard code reason ≡ none
    → observed ≤ limit
unfolding compare_limit compare_limit_i64 u64_to_i64_saturating leb_ℤ saturating_mul saturate ◌*ℤ◌
compare_limit-none observed limit grace hard code reason h = ground arith

-- The check never answers with a plain `Allow`, and if it lets the request pass, `P` holds.
record Sound (checked : Checked) (P : Type 0) : Type 0 where
  no_allow : checked.0 ≢ some allow
  holds : checked.0 ≡ none → P

passed-Sound : {P : Type 0} → P → Sound passed P
passed-Sound p = record { no_allow = cc; holds = λ _. p }

or_else-Sound : {P Q : Type 0} (a b : Checked) → Sound a P → Sound b Q → Sound (or_else a b) (P × Q)
unfolding or_else
or_else-Sound (none, es) b h k = record {
  no_allow = k.no_allow;
  holds = λ e. (h.holds refl, k.holds e);
}
or_else-Sound (some d, es) b h k = record {
  no_allow = h.no_allow;
  holds = λ e. absurd (ground arith);
}

-- A comparison never answers with a plain `Allow`.
compare_limit_i64-ne-allow :
    (observed limit : ℤ) (grace hard : ℕ) (code : BlockCode) (reason : String)
    → compare_limit_i64 observed limit grace hard code reason ≢ some allow
unfolding compare_limit_i64
compare_limit_i64-ne-allow observed limit grace hard code reason h = ground arith

compare_limit-ne-allow :
    (observed limit grace hard : ℕ) (code : BlockCode) (reason : String)
    → compare_limit observed limit grace hard code reason ≢ some allow
unfolding compare_limit
compare_limit-ne-allow observed limit grace hard code reason =
    compare_limit_i64-ne-allow (u64_to_i64_saturating observed) (u64_to_i64_saturating limit) grace
      hard code reason

settle-allow :
    {P : Type 0} (workspace_id : ℕ) (signal : SignalKind) (operation : Operation) (created_at : ℤ)
    (checked : Checked) (rest : Outcome)
    → Sound checked P
    → (settle workspace_id signal operation created_at checked rest).decision ≡ allow
    → P × (rest.decision ≡ allow)
unfolding settle audited
settle-allow w s o t (none, es) rest k h = (k.holds refl, h)
settle-allow w s o t (some d, es) rest k h = absurd (k.no_allow (ap some h))

module _ (usage : UsageReader) (ctx : IngestCtx) (grace hard : ℕ) where
  check_rate_value-Sound :
      (observed limit : ℕ) (kind reason : String)
      → Sound (check_rate_value ctx ingest observed limit grace hard kind reason) (observed ≤ limit)
  unfolding check_rate_value
  check_rate_value-Sound observed limit kind reason = record {
    no_allow = compare_limit-ne-allow observed limit grace hard rate_limit_exceeded reason;
    holds = compare_limit-none observed limit grace hard rate_limit_exceeded reason;
  }

  check_rate_records-Sound :
      (s : RateSample) (limit : Option ℕ)
      → Sound
          (check_rate_records ctx ingest s limit grace hard)
          (UpTo (add_u64 s.records_per_sec ctx.records) limit)
  unfolding check_rate_records
  check_rate_records-Sound s none = passed-Sound tt
  check_rate_records-Sound s (some limit) = check_rate_value-Sound _ limit _ _

  check_rate_bytes-Sound :
      (s : RateSample) (limit bytes : Option ℕ)
      → Sound
          (check_rate_bytes ctx ingest s limit bytes grace hard)
          (BytesUpTo s.bytes_per_sec bytes limit)
  unfolding check_rate_bytes
  check_rate_bytes-Sound s none none = passed-Sound tt
  check_rate_bytes-Sound s none (some b) = passed-Sound tt
  check_rate_bytes-Sound s (some limit) none = passed-Sound tt
  check_rate_bytes-Sound s (some limit) (some b) = check_rate_value-Sound _ limit _ _

  check_rate_sample-Sound :
      (records bytes : Option ℕ) (sample : Option RateSample)
      → Sound
          (check_rate_sample ctx ingest records bytes sample grace hard)
          (SampleUpTo ctx records bytes sample)
  unfolding check_rate_sample
  check_rate_sample-Sound records bytes none = passed-Sound tt
  check_rate_sample-Sound records bytes (some s) =
      or_else-Sound _ _ (check_rate_records-Sound s records)
        (check_rate_bytes-Sound s bytes ctx.estimated_bytes)

  check_rate-Sound :
      (limit : Option PolicyLimit)
      → Sound (check_rate usage ctx limit ingest grace hard) (RateRespected usage ctx limit)
  unfolding check_rate
  check_rate-Sound none = passed-Sound tt
  check_rate-Sound (some (rate r b)) = check_rate_sample-Sound r b _
  check_rate-Sound (some (quota m a z basis)) = passed-Sound tt
  check_rate-Sound (some (size m basis)) = passed-Sound tt
  check_rate-Sound (some (retention d)) = passed-Sound tt
  check_rate-Sound (some (window d)) = passed-Sound tt

  check_observed-Sound :
      (c : ThresholdContext) (observed : Option ℤ) (limit : ℤ) (start : Option ℤ) (code : BlockCode)
      (reason : String)
      → Sound (check_observed c observed limit start grace hard code reason) (AtMost observed limit)
  unfolding check_observed
  check_observed-Sound c none limit start code reason = passed-Sound tt
  check_observed-Sound c (some observed) limit start code reason = record {
    no_allow = compare_limit_i64-ne-allow observed limit grace hard code reason;
    holds = compare_limit_i64-none observed limit grace hard code reason;
  }

  check_quota-Sound :
      (q : PolicyLimit)
      → Sound (check_quota usage ctx q ingest grace hard) (QuotaRespected usage ctx q)
  unfolding check_quota
  check_quota-Sound (rate r b) = passed-Sound tt
  check_quota-Sound (quota m a z compressed_bytes) = check_observed-Sound _ _ m _ _ _
  check_quota-Sound (quota m a z scanned_bytes) = passed-Sound tt
  check_quota-Sound (size m basis) = passed-Sound tt
  check_quota-Sound (retention d) = passed-Sound tt
  check_quota-Sound (window d) = passed-Sound tt

  check_quotas-Sound :
      (qs : List PolicyLimit)
      → Sound (check_quotas usage ctx qs ingest grace hard) (QuotasRespected usage ctx qs)
  unfolding check_quotas
  check_quotas-Sound [] = passed-Sound tt
  check_quotas-Sound (q ∷ qs) = or_else-Sound _ _ (check_quota-Sound q) (check_quotas-Sound qs)

  check_size-Sound :
      (limit : Option PolicyLimit)
      → Sound (check_size usage ctx limit grace hard) (SizeRespected usage ctx limit)
  unfolding check_size
  check_size-Sound none = passed-Sound tt
  check_size-Sound (some (rate r b)) = passed-Sound tt
  check_size-Sound (some (quota m a z basis)) = passed-Sound tt
  check_size-Sound (some (size m compressed_bytes)) = check_observed-Sound _ _ m _ _ _
  check_size-Sound (some (size m scanned_bytes)) = passed-Sound tt
  check_size-Sound (some (retention d)) = passed-Sound tt
  check_size-Sound (some (window d)) = passed-Sound tt

blocked_ne_allow : {reason : String} {code : BlockCode} → block reason code ≢ allow
blocked_ne_allow = cc

-- A request that is plainly allowed belongs to a workspace that is not blocked, and no limit that
-- could be measured is exceeded by it: not the rate, none of the quotas, not the stored size.
pub check_ingest_allow :
    (usage : UsageReader) (resolve : ℕ → SignalKind → Operation → ResolvedPolicy) (ctx : IngestCtx)
    → (check_ingest usage resolve ctx).decision ≡ allow
    → let resolved = resolve ctx.workspace_id ctx.signal ingest in
      (resolved.blocked ≡ false)
      × RateRespected usage ctx resolved.rate_limit
      × QuotasRespected usage ctx resolved.quotas
      × SizeRespected usage ctx resolved.size_limit
unfolding check_ingest audited
check_ingest_allow usage resolve ctx h =
    let p = resolve ctx.workspace_id ctx.signal ingest in
    elim (Bool-cases p.blocked) [
      | inl stopped ↦ absurd (blocked_ne_allow (rw stopped at h))
      | inr unblocked ↦
          let (rated, h1) =
            settle-allow _ _ _ _ _ _
              (check_rate-Sound usage ctx p.grace_pct p.hard_block_pct p.rate_limit)
              (rw unblocked at h) in
          let (in_quota, h2) =
            settle-allow _ _ _ _ _ _
              (check_quotas-Sound usage ctx p.grace_pct p.hard_block_pct p.quotas) h1 in
          let (sized, _) =
            settle-allow _ _ _ _ _ _
              (check_size-Sound usage ctx p.grace_pct p.hard_block_pct p.size_limit) h2 in
          (unblocked, rated, in_quota, sized)
    ]
