-- ===== src/Examples/Rounds.antt =====
-- Cleanups and commit rounds at concrete values.
use zradar.Base.{◌≡◌, Option, some, ◌++◌, true, false, arith}
use zradar.Wal.Checkpoint.{Checkpoint}
use zradar.Wal.Log.View.{files}
use zradar.Wal.GroupCommit.{FsyncQueue, new, register, commit_round}
use zradar.Wal.GroupCommit.Tickets.{
  registers, goes_round, Reachable, starts, steps, tickets, Reachable-tickets,
  commit_round_notifies,
}
use zradar.Wal.Janitor.{cleanup_once}
use zradar.Wal.Janitor.Keeps.{Kept, cleanup_once-Kept}
use zradar.Examples.Data.{checksum}
use zradar.Examples.Logs.{two_segments, two_segments-AllSegments}

-- The flusher has gone on to the second segment.
abbrev past_first : Option Checkpoint
past_first =
    some (record { last_flushed_segment_id = 1; last_flushed_offset = 4; wal_format_version = 1 })

cleanup_once-Kept_example :
    Kept checksum past_first two_segments
      (cleanup_once (λ id. true) past_first 1 (files checksum two_segments))
cleanup_once-Kept_example =
    cleanup_once-Kept checksum (λ id. true) past_first 1 two_segments two_segments-AllSegments
      (omega arith)

-- Two appends, a round that fails, and one more append.
abbrev queue : FsyncQueue
queue = (register (commit_round false (register (register new).0).0)).0

queue-Reachable : Reachable queue
queue-Reachable =
    steps (steps (steps (steps starts registers) registers) (goes_round false)) registers

Reachable-tickets_example : queue.notified ++ queue.pending ≡ tickets queue.next_ticket
Reachable-tickets_example = Reachable-tickets queue queue-Reachable

commit_round_notifies_example : (commit_round true queue).notified ≡ tickets queue.next_ticket
commit_round_notifies_example = commit_round_notifies queue queue-Reachable
