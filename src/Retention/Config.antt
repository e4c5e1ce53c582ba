-- ===== src/Retention/Config.antt =====
-- config.rs: how long each workspace keeps its data. A clock reading is a number of nanoseconds
-- since the epoch; an insert into the map hides the entry that was there.
use zradar.Base.{ℕ, ◌*◌, ◌/◌, ◌^◌, List, [], ◌∷◌, ltb, if◌then◌else◌}
use zradar.Base.Bytes.{Bytes, bytes_eq}
use zradar.Base.Integers.{ℤ, pos, ◌+ℤ◌, negate, wrap_i64}

pub record WorkspaceRetentionConfig : Type 0 where
  pub workspace_id : Bytes
  pub retention_days : ℕ

pub record RetentionConfigStore : Type 0 where
  pub configs : List WorkspaceRetentionConfig
  pub global_default_days : ℕ

unfoldable pub new : ℕ → RetentionConfigStore
new global_default_days = record { configs = []; global_default_days = global_default_days }

unfoldable pub upsert : WorkspaceRetentionConfig → RetentionConfigStore → RetentionConfigStore
upsert config s = record s { configs = config ∷ s.configs }

unfoldable pub upsert_workspace_override : Bytes → ℕ → RetentionConfigStore → RetentionConfigStore
unfolding upsert
upsert_workspace_override workspace_id days s =
    upsert (record { workspace_id = workspace_id; retention_days = days }) s

unfoldable pub find_days : Bytes → ℕ → List WorkspaceRetentionConfig → ℕ
find_days workspace_id default [] = default
find_days workspace_id default (cfg ∷ cfgs) =
    let rest = find_days workspace_id default cfgs in
    if bytes_eq workspace_id cfg.workspace_id then cfg.retention_days else rest

unfoldable pub get_effective_days : Bytes → RetentionConfigStore → ℕ
unfolding find_days
get_effective_days workspace_id s = find_days workspace_id s.global_default_days s.configs

-- `timestamp_nanos_opt().unwrap_or(0)`
unfoldable pub timestamp_nanos : ℕ → ℕ
timestamp_nanos now = if ltb now (2 ^ 63) then now else 0

-- `secs` fits: `days` is a `u32`.
unfoldable pub get_cutoff_us : Bytes → ℕ → RetentionConfigStore → ℤ
unfolding get_effective_days wrap_i64 ◌+ℤ◌ negate
get_cutoff_us workspace_id now s =
    let secs = get_effective_days workspace_id s * 86_400 in
    wrap_i64 (pos (now / 1_000) +ℤ negate (wrap_i64 (pos (secs * 1_000_000))))

unfoldable pub get_cutoff_ns : Bytes → ℕ → RetentionConfigStore → ℤ
unfolding get_effective_days wrap_i64 ◌+ℤ◌ negate timestamp_nanos
get_cutoff_ns workspace_id now s =
    let secs = get_effective_days workspace_id s * 86_400 in
    wrap_i64 (pos (timestamp_nanos now) +ℤ negate (wrap_i64 (pos (secs * 1_000_000_000))))
