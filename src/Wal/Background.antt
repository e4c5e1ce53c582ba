-- ===== src/Wal/Background.antt =====
-- flusher.rs and janitor.rs: their passes, in any order, over one directory and one checkpoint file.
-- Each pass has its own sink, removals and active segment.
use zradar.Base.{ℕ, ◌^◌, ◌<◌, ◌≡◌, ◌∙◌, ap, List, [], ◌∷◌, ◌++◌, Bool, true}
use zradar.Base.Bytes.{Bytes}
use zradar.Wal.Checkpoint.{Checkpoint}
use zradar.Wal.Dir.{Dir}
use zradar.Wal.Record.{WalRecord}
use zradar.Wal.Log.View.{Segment, AllSegments, files}
use zradar.Wal.Flusher.{FlushState, flush_once}
use zradar.Wal.Flusher.Pending.{pending, Ascending}
use zradar.Wal.Flusher.Pass.{flush_once-exact}
use zradar.Wal.Janitor.{cleanup_once}
use zradar.Wal.Janitor.Keeps.{cleanup_once-Kept}

-- One tick of `WalFlusher::run` or of `WalJanitor::run`.
pub data Pass : Type 0 where
  flush : (sink_ok : List WalRecord → Bool) (active_id next_offset : ℕ) → Pass
  cleanup : (remove_ok : ℕ → Bool) (active_id : ℕ) → Pass

pub record Background : Type 0 where
  pub dir : Dir
  pub flusher : FlushState

module _ (crc32 : Bytes → ℕ) (save_ok : Checkpoint → Bool) where
  unfoldable pub run_pass : Pass → Background → Background
  run_pass (flush sink_ok active_id next_offset) b = record b {
    flusher = (flush_once crc32 sink_ok save_ok b.dir active_id next_offset b.flusher).0;
  }
  run_pass (cleanup remove_ok active_id) b = record b {
    dir = cleanup_once remove_ok b.flusher.checkpoint active_id b.dir;
  }

  unfoldable pub run_passes : List Pass → Background → Background
  unfolding run_pass
  run_passes [] b = b
  run_passes (p ∷ ps) b = run_passes ps (run_pass p b)

-- The directory holds segments of whole records in order, and the records that were confirmed
-- followed by those behind the checkpoint are the history: each once, none lost.
pub record Accounts (crc32 : Bytes → ℕ) (history : List WalRecord) (b : Background) : Type 0 where
  pub segments : List Segment
  pub on_disk : b.dir ≡ files crc32 segments
  pub whole : AllSegments segments
  pub ascending : Ascending segments
  pub total : b.flusher.confirmed ++ pending b.flusher.checkpoint segments ≡ history

module _ (crc32 : Bytes → ℕ) (save_ok : Checkpoint → Bool)
    (crc32_u32 : (b : Bytes) → crc32 b < 256 ^ 4)
    (saves : (cp : Checkpoint) → save_ok cp ≡ true) where
  run_pass-Accounts :
      (p : Pass) (b : Background) (history : List WalRecord)
      → Accounts crc32 history b
      → Accounts crc32 history (run_pass crc32 save_ok p b)
  unfolding run_pass
  run_pass-Accounts (flush sink_ok active next) b history a = record {
    segments = a.segments;
    on_disk = a.on_disk;
    whole = a.whole;
    ascending = a.ascending;
    total = rw a.on_disk (
        flush_once-exact crc32 sink_ok save_ok crc32_u32 active next a.segments b.flusher history
          saves a.whole a.ascending a.total);
  }
  run_pass-Accounts (cleanup remove_ok active) b history a =
      let k =
        cleanup_once-Kept crc32 remove_ok b.flusher.checkpoint active a.segments a.whole
          a.ascending in
      record {
        segments = k.kept;
        on_disk = ap (cleanup_once remove_ok b.flusher.checkpoint active) a.on_disk ∙ k.on_disk;
        whole = k.whole;
        ascending = k.ascending;
        total = ap (λ (l : List WalRecord). b.flusher.confirmed ++ l) k.same_pending ∙ a.total;
      }

  -- After any sequence of flush passes and cleanups, with sinks that refuse and removals that fail, no
  -- record is lost and none is confirmed twice, as long as the checkpoint file can be written.
  pub run_passes-Accounts :
      (ps : List Pass) (b : Background) (history : List WalRecord)
      → Accounts crc32 history b
      → Accounts crc32 history (run_passes crc32 save_ok ps b)
  unfolding run_passes
  run_passes-Accounts [] b history a = a
  run_passes-Accounts (p ∷ ps) b history a =
      run_passes-Accounts ps (run_pass crc32 save_ok p b) history (run_pass-Accounts p b history a)
