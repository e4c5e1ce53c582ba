-- ===== src/Wal/Checkpoint.antt =====
-- checkpoint.rs: how far the log has been flushed.
-- The file is replaced by a rename, so a reader sees the old checkpoint or the new one, and the
-- store is an `Option`: `none` where the file does not exist.
use zradar.Base.{ℕ, Option, none, some, Bool, true, false}

pub record Checkpoint : Type 0 where
  pub last_flushed_segment_id : ℕ
  pub last_flushed_offset : ℕ
  pub wal_format_version : ℕ

-- `save`: a failure leaves the file as it was.
unfoldable pub save : Bool → Checkpoint → Option Checkpoint → Option Checkpoint
save true cp old = some cp
save false cp old = old

-- `checkpoint.as_ref().map_or(0, |cp| cp.last_flushed_segment_id)`
abbrev pub start_segment : Option Checkpoint → ℕ
start_segment none = 0
start_segment (some cp) = cp.last_flushed_segment_id

abbrev pub flushed_offset : Option Checkpoint → Option ℕ
flushed_offset none = none
flushed_offset (some cp) = some cp.last_flushed_offset
