-- ===== src/Ingest/Guard/Answers.antt =====
-- ingestion_guard.rs: what the answers of the guard mean.
use zradar.Base.{
  ℕ, ◌*◌, ◌-◌, ◌≤◌, ◌<◌, ◌^◌, ◌≡◌, ◌≢◌, ◌↔◌, ◌⊎◌, inl, inr, refl, sym, Option, none, some, Bool,
  true, false, Bool-cases, arith, ltb, leb, ◌&&◌, min,
}
use zradar.Base.Integers.{ℤ, pos, negsuc}
use zradar.Base.Results.{Result, ok, err}
use zradar.Ingest.Status.{Status, rate_limited_status}
use zradar.Ingest.Guard.{
  WorkspaceSettings, Loaded, load_workspace_settings, check_rate_limit, enforce_settings,
  enforce_workspace_settings_and_get,
}

none_ne_some : {n : ℕ} → let nothing : Option ℕ = none in nothing ≢ some n
none_ne_some = cc

ok_none :
    {s : WorkspaceSettings}
    → let nothing : Result {0, 0} (Option WorkspaceSettings) Status = ok none in
      nothing ≢ ok (some s)
ok_none = cc

err_ne_ok :
    {e : Status} {s : Option WorkspaceSettings}
    → let refused : Result {0, 0} (Option WorkspaceSettings) Status = err e in refused ≢ ok s
err_ne_ok = cc

ok_injective :
    {s t : WorkspaceSettings}
    → let passed : Result {0, 0} (Option WorkspaceSettings) Status = ok (some s) in
      passed ≡ ok (some t) → s ≡ t
ok_injective = cc

check_rate_limit-ok :
    (check : ℕ → ℕ → Bool) (records : ℕ) (s t : WorkspaceSettings) (rate : Option ℤ)
    → check_rate_limit (some check) s rate records ≡ ok (some t)
    → (s ≡ t)
      × ((rate ≡ none) ⊎ ((limit : ℕ) × (rate ≡ some (pos limit)) × (check limit records ≡ true)))
unfolding check_rate_limit
check_rate_limit-ok check records s t none h = (ok_injective h, inl refl)
check_rate_limit-ok check records s t (some (negsuc n)) h = absurd (err_ne_ok h)
check_rate_limit-ok check records s t (some (pos limit)) h =
    elim (Bool-cases (check limit records)) [
      | inl room ↦ (ok_injective (rw room at h), inr (limit, refl, room))
      | inr full ↦ absurd (err_ne_ok (rw full at h))
    ]

-- The rate limit's refusal asks for a retry exactly if the bucket can ever hold the request: twice
-- the limit, which is not zero, as far as a `u64` goes.
pub rate_limited_status-retry :
    (limit records : ℕ)
    → records < 2 ^ 64 - 1
    → ((rate_limited_status limit records).retry_info ≡ some 1000)
      ↔ ((0 < limit) × (records ≤ limit * 2))
unfolding rate_limited_status
rate_limited_status-retry limit records h =
    elim (Bool-cases (ltb 0 limit && leb records (min (limit * 2) (2 ^ 64 - 1)))) [
      | inl e ↦ rw e (λ r. (ground arith, ground arith), λ w. refl)
      | inr e ↦ rw e (λ r. absurd (none_ne_some r), λ w. absurd (ground arith))
    ]

-- The settings let a request pass only if the workspace is not blocked and the limiter, where there is
-- one and a limit is set, has room for it.
pub enforce_workspace_settings_and_get_ok :
    (repository : Option Loaded) (check_and_record : ℕ → ℕ → Bool) (records : ℕ)
    (settings : WorkspaceSettings)
    → enforce_workspace_settings_and_get repository (some check_and_record) records
      ≡ ok (some settings)
    → (settings.blocked ≡ false)
      × ((settings.max_ingestion_rate ≡ none)
          ⊎ ((limit : ℕ) × (settings.max_ingestion_rate ≡ some (pos limit))
              × (check_and_record limit records ≡ true)))
unfolding enforce_workspace_settings_and_get load_workspace_settings enforce_settings
enforce_workspace_settings_and_get_ok none check records settings h = absurd (ok_none h)
enforce_workspace_settings_and_get_ok (some (ok none)) check records settings h = absurd (ok_none h)
enforce_workspace_settings_and_get_ok (some (ok (some s))) check records settings h =
    elim (Bool-cases s.blocked) [
      | inl stopped ↦ absurd (err_ne_ok (rw stopped at h))
      | inr unblocked ↦
          let h' = rw unblocked at h in
          let (same, limited) =
            check_rate_limit-ok check records (record s { blocked = false }) settings
              s.max_ingestion_rate h' in
          rw (sym same) (refl, limited)
    ]
enforce_workspace_settings_and_get_ok (some (err e)) check records settings h = absurd (err_ne_ok h)
