-- ===== src/Policy/Enforcer.antt =====
-- enforcer.rs: `check_ingest` and `check_query`, which go through the checks in order, and what they
-- audit. The store's answer, `resolve`, is an argument.
pub mod Allowed
pub mod Audits
pub mod Query
use zradar.Base.{
  ℕ, ◌+◌, Option, none, some, List, [], ◌∷◌, ◌++◌, Bool, true, false, if◌then◌else◌, String,
}
use zradar.Base.Integers.{ℤ, pos}
use zradar.Policy.Types.{
  SignalKind, Operation, ingest, query, store, PolicyLimit, rate, quota, size, retention, window,
  compressed_bytes, scanned_bytes, ResolvedPolicy, BlockCode, project_blocked, rate_limit_exceeded,
  quota_exceeded, size_exceeded, retention_violation, query_window_violation, Decision, allow,
  allow_with_grace, throttle, block, DecisionSummary, allowed, graced, throttled, blocked_summary,
  IngestCtx, QueryCtx, RateSample, ThresholdEvent, DecisionAuditEvent, UsageReader,
}
use zradar.Policy.Checks.{
  add_u64, unwrap_or_0, Checked, or_else, passed, check_query_range, check_rate, check_quotas,
  check_size, check_query_rate, check_query_quotas,
}

-- `DecisionSummary::from`
abbrev pub summary : Decision → DecisionSummary
summary allow = allowed
summary (allow_with_grace _) = graced
summary (throttle _ _) = throttled
summary (block _ _) = blocked_summary

abbrev pub decision_reason : Decision → String
decision_reason allow = "allow"
decision_reason (allow_with_grace reason) = reason
decision_reason (throttle _ reason) = reason
decision_reason (block reason _) = reason

abbrev pub decision_block_code : Decision → Option BlockCode
decision_block_code (block _ code) = some code
decision_block_code _ = none

-- `audit_decision`, with the `AuditContext` written out: the failure of the sink is ignored.
unfoldable pub audit_decision : ℕ → SignalKind → Operation → ℤ → Decision → List DecisionAuditEvent
audit_decision workspace_id signal operation created_at allow = []
audit_decision workspace_id signal operation created_at decision =
    record {
      workspace_id = workspace_id;
      signal = signal;
      operation = operation;
      decision = summary decision;
      reason = decision_reason decision;
      observed_value = none;
      limit_value = none;
      block_code = decision_block_code decision;
      created_at = created_at;
    }
    ∷ []

-- A decision, with what the two sinks were handed on the way.
pub record Outcome : Type 0 where
  pub decision : Decision
  pub thresholds : List ThresholdEvent
  pub audits : List DecisionAuditEvent

abbrev pub let_through : Outcome
let_through = record { decision = allow; thresholds = []; audits = [] }

unfoldable pub audited : ℕ → SignalKind → Operation → ℤ → List ThresholdEvent → Decision → Outcome
unfolding audit_decision
audited workspace_id signal operation created_at events decision = record {
  decision = decision;
  thresholds = events;
  audits = audit_decision workspace_id signal operation created_at decision;
}

-- `if let Some(decision) = check { self.audit_decision(..); return decision; }`, then the rest.
unfoldable pub settle : ℕ → SignalKind → Operation → ℤ → Checked → Outcome → Outcome
unfolding audited
settle workspace_id signal operation created_at (some decision, events) rest =
    audited workspace_id signal operation created_at events decision
settle workspace_id signal operation created_at (none, events) rest = record rest {
  thresholds = events ++ rest.thresholds;
}

module _ (usage : UsageReader) where
  unfoldable pub check_ingest : (ℕ → SignalKind → Operation → ResolvedPolicy) → IngestCtx → Outcome
  unfolding audited settle check_rate check_quotas check_size
  check_ingest resolve ctx =
      let resolved = resolve ctx.workspace_id ctx.signal ingest in
      let grace = resolved.grace_pct in
      let hard = resolved.hard_block_pct in
      let sized =
        settle ctx.workspace_id ctx.signal store ctx.now_micros
          (check_size usage ctx resolved.size_limit grace hard) let_through in
      let with_quotas =
        settle ctx.workspace_id ctx.signal ingest ctx.now_micros
          (check_quotas usage ctx resolved.quotas ingest grace hard) sized in
      let rated =
        settle ctx.workspace_id ctx.signal ingest ctx.now_micros
          (check_rate usage ctx resolved.rate_limit ingest grace hard) with_quotas in
      if resolved.blocked
      then audited ctx.workspace_id ctx.signal ingest ctx.now_micros []
          (block "project_blocked" project_blocked)
      else rated

  unfoldable pub check_query : (ℕ → SignalKind → Operation → ResolvedPolicy) → QueryCtx → Outcome
  unfolding settle check_query_range check_query_rate check_query_quotas
  check_query resolve ctx =
      let resolved = resolve ctx.workspace_id ctx.signal query in
      let grace = resolved.grace_pct in
      let hard = resolved.hard_block_pct in
      let ranged = check_query_range ctx resolved.retention_limit resolved.query_window in
      let settle_query = settle ctx.workspace_id ctx.signal query ctx.now_micros in
      settle_query (ranged, [])
        (settle_query (check_query_rate usage ctx resolved.rate_limit grace hard)
          (settle_query (check_query_quotas usage ctx resolved.quotas grace hard) let_through))
