-- ===== src/Policy/Types.antt =====
-- types.rs and traits.rs: limits, decisions, and what the enforcer is given and reports.
use zradar.Base.{ℕ, Option, none, List, [], Bool, false, String}
use zradar.Base.Integers.{ℤ}

pub data SignalKind : Type 0 where
  traces logs metrics rum session_replay error_tracking all_signals : SignalKind

pub data Operation : Type 0 where
  ingest query store all_operations : Operation

pub data UsageBasis : Type 0 where
  compressed_bytes scanned_bytes : UsageBasis

pub data PolicyLimit : Type 0 where
  rate : (records_per_sec bytes_per_sec : Option ℕ) → PolicyLimit
  quota : (max_bytes period_start : ℤ) (period_end : Option ℤ) (basis : UsageBasis) → PolicyLimit
  size : (max_bytes : ℤ) (basis : UsageBasis) → PolicyLimit
  retention : (max_days : ℕ) → PolicyLimit
  window : (max_query_days : ℕ) → PolicyLimit

pub record ResolvedPolicy : Type 0 where
  pub blocked : Bool
  pub rate_limit : Option PolicyLimit
  pub quotas : List PolicyLimit
  pub size_limit : Option PolicyLimit
  pub retention_limit : Option PolicyLimit
  pub query_window : Option PolicyLimit
  pub grace_pct : ℕ
  pub hard_block_pct : ℕ

-- `ResolvedPolicy::default`
abbrev pub default : ResolvedPolicy
default = record {
  blocked = false;
  rate_limit = none;
  quotas = [];
  size_limit = none;
  retention_limit = none;
  query_window = none;
  grace_pct = 101;
  hard_block_pct = 103;
}

pub data BlockCode : Type 0 where
  project_blocked rate_limit_exceeded quota_exceeded size_exceeded : BlockCode
  retention_violation query_window_violation : BlockCode

pub data Decision : Type 0 where
  allow : Decision
  allow_with_grace : (reason : String) → Decision
  throttle : (retry_after_ms : ℕ) (reason : String) → Decision
  block : (reason : String) (code : BlockCode) → Decision

pub data DecisionSummary : Type 0 where
  allowed graced throttled blocked_summary : DecisionSummary

pub record IngestCtx : Type 0 where
  pub workspace_id : ℕ
  pub signal : SignalKind
  pub records : ℕ
  pub estimated_bytes : Option ℕ
  pub now_micros : ℤ

pub record QueryCtx : Type 0 where
  pub workspace_id : ℕ
  pub signal : SignalKind
  pub start_micros : Option ℤ
  pub end_micros : Option ℤ
  pub estimated_scanned_bytes : Option ℕ
  pub now_micros : ℤ

pub record RateSample : Type 0 where
  pub records_per_sec : ℕ
  pub bytes_per_sec : ℕ
  pub sampled_at_micros : ℤ

pub record ThresholdEvent : Type 0 where
  pub workspace_id : ℕ
  pub signal : SignalKind
  pub operation : Operation
  pub limit_kind : String
  pub threshold_pct : ℕ
  pub observed_value : ℤ
  pub limit_value : ℤ
  pub period_start : Option ℤ
  pub emitted_at : ℤ

pub record DecisionAuditEvent : Type 0 where
  pub workspace_id : ℕ
  pub signal : SignalKind
  pub operation : Operation
  pub decision : DecisionSummary
  pub reason : String
  pub observed_value : Option ℤ
  pub limit_value : Option ℤ
  pub block_code : Option BlockCode
  pub created_at : ℤ

-- The trait `UsageReader`, at the time of a decision: `none` where the reader fails.
pub record UsageReader : Type 0 where
  pub current_rate : ℕ → SignalKind → Operation → Option RateSample
  pub period_used_bytes : ℕ → SignalKind → Operation → ℤ → Option ℤ → Option ℤ
  pub stored_compressed_bytes : ℕ → SignalKind → Option ℤ
