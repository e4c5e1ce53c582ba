-- ===== src/Policy/Enforcer/Audits.antt =====
-- enforcer.rs: what is audited of a decision.
use zradar.Base.{ℕ, ◌≡◌, refl, inl, inr, none, some, List, [], ◌∷◌, Bool-cases}
use zradar.Base.Integers.{ℤ}
use zradar.Policy.Types.{
  SignalKind, Operation, ingest, query, store, ResolvedPolicy, Decision, allow, allow_with_grace,
  throttle, block, graced, throttled, blocked_summary, IngestCtx, QueryCtx, DecisionAuditEvent,
  UsageReader,
}
use zradar.Policy.Checks.{
  Checked, check_rate, check_quotas, check_size, check_query_range, check_query_rate,
  check_query_quotas,
}
use zradar.Policy.Enforcer.{
  Outcome, let_through, settle, audited, audit_decision, check_ingest, check_query,
}

-- The audit trail that a decision leaves: none if the request was plainly allowed, else one event with
-- its kind, its reason and its code.
abbrev pub IsAuditOf : ℕ → SignalKind → ℤ → Decision → List DecisionAuditEvent → Type 0
IsAuditOf w s t allow events = events ≡ []
IsAuditOf w s t (allow_with_grace reason) events =
    (operation : Operation) × (events
      ≡ record {
        workspace_id = w;
        signal = s;
        operation = operation;
        decision = graced;
        reason = reason;
        observed_value = none;
        limit_value = none;
        block_code = none;
        created_at = t;
      }
        ∷ [])
IsAuditOf w s t (throttle ms reason) events =
    (operation : Operation) × (events
      ≡ record {
        workspace_id = w;
        signal = s;
        operation = operation;
        decision = throttled;
        reason = reason;
        observed_value = none;
        limit_value = none;
        block_code = none;
        created_at = t;
      }
        ∷ [])
IsAuditOf w s t (block reason code) events =
    (operation : Operation) × (events
      ≡ record {
        workspace_id = w;
        signal = s;
        operation = operation;
        decision = blocked_summary;
        reason = reason;
        observed_value = none;
        limit_value = none;
        block_code = some code;
        created_at = t;
      }
        ∷ [])

-- The trail of an outcome is that of its decision.
pub record IsAudited (w : ℕ) (s : SignalKind) (t : ℤ) (out : Outcome) : Type 0 where
  pub trail : IsAuditOf w s t out.decision out.audits

audit_decision-IsAuditOf :
    (w : ℕ) (s : SignalKind) (operation : Operation) (t : ℤ) (d : Decision)
    → IsAuditOf w s t d (audit_decision w s operation t d)
unfolding audit_decision
audit_decision-IsAuditOf w s operation t allow = refl
audit_decision-IsAuditOf w s operation t (allow_with_grace reason) = (operation, refl)
audit_decision-IsAuditOf w s operation t (throttle ms reason) = (operation, refl)
audit_decision-IsAuditOf w s operation t (block reason code) = (operation, refl)

settle-IsAudited :
    (w : ℕ) (s : SignalKind) (operation : Operation) (t : ℤ) (checked : Checked) (rest : Outcome)
    → IsAudited w s t rest
    → IsAudited w s t (settle w s operation t checked rest)
unfolding settle audited
settle-IsAudited w s operation t (none, es) rest h = record { trail = h.trail }
settle-IsAudited w s operation t (some d, es) rest h = record {
  trail = audit_decision-IsAuditOf w s operation t d;
}

-- However an ingest request is decided, the audit trail holds that decision, once, and nothing if it
-- was plainly allowed.
pub check_ingest-IsAudited :
    (usage : UsageReader) (resolve : ℕ → SignalKind → Operation → ResolvedPolicy) (ctx : IngestCtx)
    → IsAudited ctx.workspace_id ctx.signal ctx.now_micros (check_ingest usage resolve ctx)
unfolding check_ingest audited audit_decision
check_ingest-IsAudited usage resolve ctx =
    let w = ctx.workspace_id in
    let s = ctx.signal in
    let t = ctx.now_micros in
    let p = resolve w s ingest in
    elim (Bool-cases p.blocked) [
      | inl stopped ↦ rw stopped (record { trail = (ingest, refl) })
      | inr unblocked ↦ rw unblocked (
          settle-IsAudited w s ingest t
            (check_rate usage ctx p.rate_limit ingest p.grace_pct p.hard_block_pct) _
            (settle-IsAudited w s ingest t
              (check_quotas usage ctx p.quotas ingest p.grace_pct p.hard_block_pct) _
              (settle-IsAudited w s store t
                (check_size usage ctx p.size_limit p.grace_pct p.hard_block_pct) let_through
                (record { trail = refl }))))
    ]

-- However a query is decided, the audit trail holds that decision, once, and nothing if it was
-- plainly allowed.
pub check_query-IsAudited :
    (usage : UsageReader) (resolve : ℕ → SignalKind → Operation → ResolvedPolicy) (ctx : QueryCtx)
    → IsAudited ctx.workspace_id ctx.signal ctx.now_micros (check_query usage resolve ctx)
unfolding check_query
check_query-IsAudited usage resolve ctx =
    let w = ctx.workspace_id in
    let s = ctx.signal in
    let t = ctx.now_micros in
    let p = resolve w s query in
    settle-IsAudited w s query t (check_query_range ctx p.retention_limit p.query_window, []) _
      (settle-IsAudited w s query t
        (check_query_rate usage ctx p.rate_limit p.grace_pct p.hard_block_pct) _
        (settle-IsAudited w s query t
          (check_query_quotas usage ctx p.quotas p.grace_pct p.hard_block_pct) let_through
          (record { trail = refl })))
