-- ===== src/Wal/Disk/Laws.antt =====
-- disk.rs: when the guard refuses, that it fails open, and that recovery is noticed.
use zradar.Base.{
  ℕ, ◌+◌, ◌<◌, ◌≡◌, none, some, false, ltb, if◌then◌else◌, arith, Option, leb, ◌==◌, ◌||◌, ◌%◌,
  Option-cases, inl, inr,
}
use zradar.Wal.AppendError.{AppendError, insufficient_disk_space}
use zradar.Wal.Disk.{
  DiskSpaceGuard, Probe, known_free, refresh, sample_due, admit, u64_max, max_sample_age,
}

-- Between calls the guard is not sampling, and the last sample is not in the future.
pub record IsIdle (g : DiskSpaceGuard) : Type 0 where
  pub at_rest : g.sampling ≡ false
  pub every : 0 < g.check_every

-- Every call leaves the guard at rest, so a later call samples again.
pub admit-IsIdle : (p : Probe) (g : DiskSpaceGuard) → IsIdle g → IsIdle (admit p g).0
unfolding admit sample_due refresh
admit-IsIdle p g h = ground arith

-- What an append goes by: a fresh measurement on the first call, on every `check_every`-th and from a
-- second after the last sample on, and else the last sample. `none` is that nothing is known.
abbrev pub seen : Probe → DiskSpaceGuard → Option ℕ
seen p g =
    if (g.last_sample_ms == u64_max || g.attempts % g.check_every == 0)
      || leb (g.last_sample_ms + max_sample_age) p.now
    then p.available
    else known_free g

abbrev pub refusal : ℕ → Option ℕ → Option AppendError
refusal floor none = none
refusal floor (some available) =
    if ltb available floor then some (insufficient_disk_space available floor) else none

-- An idle guard refuses an append exactly when what it goes by is known and below the floor, and names
-- both numbers; a floor of 0 refuses nothing. The clock and the measurement are below the largest u64.
pub admit-refusal :
    (p : Probe) (g : DiskSpaceGuard)
    → IsIdle g
    → p.now < u64_max
    → ((available : ℕ) → p.available ≡ some available → available < u64_max)
    → (admit p g).1 ≡ refusal g.min_free_bytes (seen p g)
unfolding admit sample_due refresh known_free
admit-refusal p g h now fits = elim (Option-cases p.available) [
  | inl unknown ↦ rw unknown (ground arith)
  | inr (available, measured) ↦ let small = fits available measured in rw measured (ground arith)
]
