-- ===== src/Policy/Limits.antt =====
-- enforcer.rs: a measured value against its limit, and the thresholds it has crossed.
pub mod Zones
pub mod Events
use zradar.Base.{
  ℕ, ◌^◌, ◌-◌, min, Bool, not, Option, none, some, List, [], ◌∷◌, leb, ◌==◌, if◌then◌else◌, String,
}
use zradar.Base.Integers.{ℤ, pos, negsuc, leb_ℤ, saturating_mul}
use zradar.Policy.Types.{
  SignalKind, Operation, BlockCode, Decision, allow_with_grace, throttle, block, IngestCtx,
  QueryCtx, ThresholdEvent,
}

-- `i64::try_from(value).unwrap_or(i64::MAX)`
unfoldable pub u64_to_i64_saturating : ℕ → ℤ
u64_to_i64_saturating value = pos (min value (2 ^ 63 - 1))

unfoldable pub compare_limit_i64 : ℤ → ℤ → ℕ → ℕ → BlockCode → String → Option Decision
unfolding leb_ℤ
compare_limit_i64 observed limit grace_pct hard_block_pct code reason =
    let used = saturating_mul observed (pos 100) in
    if leb_ℤ limit (pos 0)
    then some (block reason code)
    else if leb_ℤ (saturating_mul limit (pos hard_block_pct)) used
    then some (block reason code)
    else if not (leb_ℤ used (saturating_mul limit (pos grace_pct)))
    then some (throttle 1000 reason)
    else if not (leb_ℤ observed limit)
    then some (allow_with_grace reason)
    else none

unfoldable pub compare_limit : ℕ → ℕ → ℕ → ℕ → BlockCode → String → Option Decision
unfolding compare_limit_i64 u64_to_i64_saturating
compare_limit observed limit grace_pct hard_block_pct code reason =
    compare_limit_i64 (u64_to_i64_saturating observed) (u64_to_i64_saturating limit) grace_pct
      hard_block_pct code reason

pub record ThresholdContext : Type 0 where
  pub workspace_id : ℕ
  pub signal : SignalKind
  pub operation : Operation
  pub limit_kind : String
  pub emitted_at : ℤ

abbrev pub from_ingest : IngestCtx → Operation → String → ThresholdContext
from_ingest ctx operation limit_kind = record {
  workspace_id = ctx.workspace_id;
  signal = ctx.signal;
  operation = operation;
  limit_kind = limit_kind;
  emitted_at = ctx.now_micros;
}

abbrev pub from_query : QueryCtx → Operation → String → ThresholdContext
from_query ctx operation limit_kind = record {
  workspace_id = ctx.workspace_id;
  signal = ctx.signal;
  operation = operation;
  limit_kind = limit_kind;
  emitted_at = ctx.now_micros;
}

-- `sort_unstable`: the ascending order of numbers does not depend on the algorithm.
unfoldable pub insert : ℕ → List ℕ → List ℕ
insert n [] = n ∷ []
insert n (m ∷ ms) = let rest = insert n ms in if leb n m then n ∷ m ∷ ms else m ∷ rest

unfoldable pub sort : List ℕ → List ℕ
unfolding insert
sort [] = []
sort (n ∷ ns) = insert n (sort ns)

unfoldable pub dedup : List ℕ → List ℕ
dedup [] = []
dedup (n ∷ []) = n ∷ []
dedup (n ∷ m ∷ ms) = let rest = dedup (m ∷ ms) in if n == m then rest else n ∷ rest

unfoldable pub thresholds : ℕ → List ℕ
unfolding dedup sort
thresholds hard_block_pct = dedup (sort (70 ∷ 90 ∷ 100 ∷ hard_block_pct ∷ []))

-- `observed.saturating_mul(100) >= limit.saturating_mul(threshold_pct)`
unfoldable pub crosses : ℤ → ℤ → ℕ → Bool
crosses observed limit pct =
    leb_ℤ (saturating_mul limit (pos pct)) (saturating_mul observed (pos 100))

unfoldable pub emit_each : ThresholdContext → ℤ → ℤ → Option ℤ → List ℕ → List ThresholdEvent
unfolding crosses
emit_each ctx observed limit period_start [] = []
emit_each ctx observed limit period_start (pct ∷ pcts) =
    let rest = emit_each ctx observed limit period_start pcts in
    let event : ThresholdEvent = record {
      workspace_id = ctx.workspace_id;
      signal = ctx.signal;
      operation = ctx.operation;
      limit_kind = ctx.limit_kind;
      threshold_pct = pct;
      observed_value = observed;
      limit_value = limit;
      period_start = period_start;
      emitted_at = ctx.emitted_at;
    } in
    if crosses observed limit pct then event ∷ rest else rest

-- The events handed to the sink, whose failures are ignored.
unfoldable pub emit_thresholds : ThresholdContext → ℤ → ℤ → Option ℤ → ℕ → List ThresholdEvent
unfolding emit_each thresholds
emit_thresholds ctx observed limit period_start hard_block_pct =
    if leb_ℤ limit (pos 0)
    then []
    else emit_each ctx observed limit period_start (thresholds hard_block_pct)
