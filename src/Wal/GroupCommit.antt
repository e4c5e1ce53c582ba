-- ===== src/Wal/GroupCommit.antt =====
-- group_commit.rs: the queue of appends that wait for an fsync, and one round of the commit task.
-- A oneshot channel is a ticket: the sender waits in `pending`, and `notified` holds the tickets
-- whose receiver has been resolved.
pub mod Tickets
use zradar.Base.{ℕ, ◌+◌, ◌%◌, ◌^◌, List, [], ◌∷◌, ◌++◌, Bool, true, false, if◌then◌else◌}

pub record FsyncQueue : Type 0 where
  pub pending : List ℕ
  pub next_ticket : ℕ
  pub notified : List ℕ
  pub fsync_count : ℕ

unfoldable pub new : FsyncQueue
new = record { pending = []; next_ticket = 0; notified = []; fsync_count = 0 }

-- The queue and the new ticket.
unfoldable pub register : FsyncQueue → FsyncQueue × ℕ
register q = (
  record q { pending = q.pending ++ q.next_ticket ∷ []; next_ticket = q.next_ticket + 1 },
  q.next_ticket,
)

unfoldable pub drain_and_notify : FsyncQueue → FsyncQueue
drain_and_notify q = record q { pending = []; notified = q.notified ++ q.pending }

unfoldable pub has_pending : List ℕ → Bool
has_pending [] = false
has_pending (t ∷ ts) = true

unfoldable pub inc_fsync_count : FsyncQueue → FsyncQueue
inc_fsync_count q = record q { fsync_count = (q.fsync_count + 1) % 2 ^ 64 }

-- The end of a round of `group_commit_loop`, and its cancellation branch: a failed fsync notifies
-- nobody.
unfoldable pub commit_round : Bool → FsyncQueue → FsyncQueue
unfolding drain_and_notify inc_fsync_count has_pending
commit_round fsync_ok q =
    if has_pending q.pending
    then if fsync_ok then drain_and_notify (inc_fsync_count q) else q
    else q
