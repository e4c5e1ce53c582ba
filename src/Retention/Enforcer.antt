-- ===== src/Retention/Enforcer.antt =====
-- enforcer.rs: the start of a query against the retention of its workspace.
pub mod Covers
use zradar.Base.{ℕ, Option, none, some, Bool, true, false, not, if◌then◌else◌}
use zradar.Base.Bytes.{Bytes}
use zradar.Base.Integers.{ℤ, leb_ℤ}
use zradar.Retention.Config.{RetentionConfigStore, get_effective_days, get_cutoff_ns}

pub data EnforcementStrategy : Type 0 where
  clamp reject : EnforcementStrategy

pub record EnforcementResult : Type 0 where
  pub modified : Bool
  pub retention_days : ℕ
  pub effective_start_ns : ℤ

pub data Enforced : Type 0 where
  ok : ℤ → EnforcementResult → Enforced
  err : (retention_days : ℕ) → Enforced

unfoldable pub enforced : ℕ → ℤ → Bool → Enforced
enforced retention_days start modified =
    ok start
      (record { modified = modified; retention_days = retention_days; effective_start_ns = start })

unfoldable pub enforce_start : EnforcementStrategy → ℕ → ℤ → Option ℤ → Enforced
unfolding enforced
enforce_start strategy retention_days cutoff_ns none = enforced retention_days cutoff_ns false
enforce_start clamp retention_days cutoff_ns (some s) =
    if not (leb_ℤ cutoff_ns s)
    then enforced retention_days cutoff_ns true
    else enforced retention_days s false
enforce_start reject retention_days cutoff_ns (some s) =
    if not (leb_ℤ cutoff_ns s) then err retention_days else enforced retention_days s false

unfoldable pub enforce :
    EnforcementStrategy → Bytes → Option ℤ → ℕ → RetentionConfigStore → Enforced
unfolding enforce_start
enforce strategy workspace_id start_ns now store =
    enforce_start strategy (get_effective_days workspace_id store)
      (get_cutoff_ns workspace_id now store) start_ns
