-- ===== src/Ingest/Status.antt =====
-- The gRPC statuses of the ingest path, retry.rs and the end of ingestion_guard.rs. A delay is in
-- milliseconds; an exporter retries a refusal that carries one.
use zradar.Base.{ℕ, ◌-◌, ◌*◌, ◌^◌, min, Option, none, some, ltb, leb, ◌&&◌, if◌then◌else◌, String}

pub data Code : Type 0 where
  permission_denied resource_exhausted invalid_argument unavailable_code internal : Code

pub record Status : Type 0 where
  pub code : Code
  pub message : String
  pub retry_info : Option ℕ

abbrev pub plain : Code → String → Status
plain code message = record { code = code; message = message; retry_info = none }

-- `retryable_resource_exhausted`
abbrev pub retryable_resource_exhausted : String → ℕ → Status
retryable_resource_exhausted message retry_after = record {
  code = resource_exhausted;
  message = message;
  retry_info = some retry_after;
}

abbrev pub unavailable : String → ℕ → Status
unavailable message retry_after = record {
  code = unavailable_code;
  message = message;
  retry_info = some retry_after;
}

-- A request that the token bucket can hold when it is full may be sent again.
unfoldable pub rate_limited_status : (limit_per_second records : ℕ) → Status
rate_limited_status limit_per_second records =
    let message : String = "Project ingestion rate limit exceeded" in
    if ltb 0 limit_per_second && leb records (min (limit_per_second * 2) (2 ^ 64 - 1))
    then retryable_resource_exhausted message 1000
    else plain resource_exhausted message
