-- ===== src/Ingest/Guard.antt =====
-- ingestion_guard.rs: the settings of a workspace and its policy, as the answer to an export. The
-- settings repository and the rate limiter's answer are arguments.
pub mod Answers
use zradar.Base.{ℕ, Option, none, some, Bool, true, false, if◌then◌else◌, String}
use zradar.Base.Integers.{ℤ, pos, negsuc}
use zradar.Base.Results.{Result, Verdict, ok, err, and_then}
use zradar.Policy.Types.{
  BlockCode, project_blocked, rate_limit_exceeded, quota_exceeded, size_exceeded,
  retention_violation, query_window_violation, Decision, allow, allow_with_grace, throttle, block,
}
use zradar.Ingest.Status.{
  Status, plain, permission_denied, resource_exhausted, invalid_argument, internal,
  retryable_resource_exhausted, rate_limited_status,
}

-- What the guard reads of the settings; `max_ingestion_rate` is an `i64`.
pub record WorkspaceSettings : Type 0 where
  pub blocked : Bool
  pub max_ingestion_rate : Option ℤ

-- `get_settings`: the repository may fail, with the text that the answer then has.
abbrev pub Loaded : Type 0
Loaded = Result {0, 0} (Option WorkspaceSettings) String

-- No repository, or its answer.
unfoldable pub load_workspace_settings :
    Option Loaded → Result {0, 0} (Option WorkspaceSettings) Status
load_workspace_settings none = ok none
load_workspace_settings (some (ok settings)) = ok settings
load_workspace_settings (some (err message)) = err (plain internal message)

-- `limiter`: no rate limiter, or the answer of `check_and_record` to a limit and a number of records.
unfoldable pub check_rate_limit :
    Option (ℕ → ℕ → Bool)
    → WorkspaceSettings
    → Option ℤ
    → ℕ
    → Result {0, 0} (Option WorkspaceSettings) Status
check_rate_limit limiter settings none records = ok (some settings)
check_rate_limit limiter settings (some (negsuc n)) records =
    err (plain invalid_argument "Invalid max_ingestion_rate")
check_rate_limit none settings (some (pos limit)) records = ok (some settings)
check_rate_limit (some check_and_record) settings (some (pos limit)) records =
    if check_and_record limit records
    then ok (some settings)
    else err (rate_limited_status limit records)

unfoldable pub enforce_settings :
    Option (ℕ → ℕ → Bool)
    → ℕ
    → Option WorkspaceSettings
    → Result {0, 0} (Option WorkspaceSettings) Status
unfolding check_rate_limit
enforce_settings limiter records none = ok none
enforce_settings limiter records (some settings) =
    if settings.blocked
    then err (plain permission_denied "Project is blocked for ingestion")
    else check_rate_limit limiter settings settings.max_ingestion_rate records

unfoldable pub enforce_workspace_settings_and_get :
    Option Loaded → Option (ℕ → ℕ → Bool) → ℕ → Result {0, 0} (Option WorkspaceSettings) Status
unfolding load_workspace_settings enforce_settings
enforce_workspace_settings_and_get repository limiter records =
    and_then (load_workspace_settings repository) (enforce_settings limiter records)

unfoldable pub block_status : String → BlockCode → Status
block_status reason project_blocked = plain permission_denied reason
block_status reason rate_limit_exceeded = plain resource_exhausted reason
block_status reason quota_exceeded = plain resource_exhausted reason
block_status reason size_exceeded = plain resource_exhausted reason
block_status reason retention_violation = plain invalid_argument reason
block_status reason query_window_violation = plain invalid_argument reason

-- `enforce_policy_ingest`, from the enforcer's decision on.
unfoldable pub enforce_policy_ingest : Decision → Verdict Status
unfolding block_status
enforce_policy_ingest allow = ok tt
enforce_policy_ingest (allow_with_grace reason) = ok tt
enforce_policy_ingest (throttle retry_after_ms reason) =
    err (retryable_resource_exhausted reason retry_after_ms)
enforce_policy_ingest (block reason code) = err (block_status reason code)
