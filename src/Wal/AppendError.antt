-- ===== src/Wal/AppendError.antt =====
-- group_commit.rs: the errors of an append.
use zradar.Base.{ℕ, Bool, true, false}

-- `Io` keeps the kind of the `std::io::Error`; `StorageFull` is the one that is told apart.
pub data IoKind : Type 0 where
  storage_full other : IoKind

pub data AppendError : Type 0 where
  io : IoKind → AppendError
  fsync_dropped : AppendError
  resource_exhausted : AppendError
  insufficient_disk_space : (available required : ℕ) → AppendError

unfoldable pub is_retryable : AppendError → Bool
is_retryable resource_exhausted = true
is_retryable (insufficient_disk_space available required) = true
is_retryable (io storage_full) = true
is_retryable (io other) = false
is_retryable fsync_dropped = false
