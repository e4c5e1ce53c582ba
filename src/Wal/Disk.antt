-- ===== src/Wal/Disk.antt =====
-- disk.rs: the free-space guard of the WAL directory. `statvfs` and the clock are read through a
-- `Probe`, one for each call.
pub mod Laws
use zradar.Base.{
  ℕ, ◌+◌, ◌-◌, ◌%◌, ◌^◌, Option, none, some, Bool, true, false, ◌||◌, not, ltb, leb, ◌==◌, max, min,
  if◌then◌else◌,
}
use zradar.Wal.AppendError.{AppendError, insufficient_disk_space}

abbrev pub u64_max : ℕ
u64_max = 2 ^ 64 - 1

-- `MAX_SAMPLE_AGE` in milliseconds.
abbrev pub max_sample_age : ℕ
max_sample_age = 1000

-- `NEVER_SAMPLED` and `UNKNOWN_FREE` are both `u64::MAX`.
abbrev pub never_sampled : ℕ
never_sampled = u64_max

abbrev pub unknown_free : ℕ
unknown_free = u64_max

pub record DiskSpaceGuard : Type 0 where
  pub min_free_bytes : ℕ
  pub check_every : ℕ
  pub attempts : ℕ
  pub free_bytes : ℕ
  pub last_sample_ms : ℕ
  pub sampling : Bool
  pub warned_unavailable : Bool

-- What the outside says during a call: milliseconds since the guard was made, when the call starts
-- and when a sample is stored, and `available_bytes`.
pub record Probe : Type 0 where
  pub now : ℕ
  pub later : ℕ
  pub available : Option ℕ

unfoldable pub new : ℕ → ℕ → DiskSpaceGuard
new min_free_bytes check_every = record {
  min_free_bytes = min_free_bytes;
  check_every = max check_every 1;
  attempts = 0;
  free_bytes = unknown_free;
  last_sample_ms = never_sampled;
  sampling = false;
  warned_unavailable = false;
}

unfoldable pub enabled : DiskSpaceGuard → Bool
enabled g = ltb 0 g.min_free_bytes

-- `DiskSpaceGuard::free_bytes`
unfoldable pub known_free : DiskSpaceGuard → Option ℕ
known_free g = if g.free_bytes == unknown_free then none else some g.free_bytes

unfoldable pub elapsed_ms : ℕ → ℕ
elapsed_ms t = min t (never_sampled - 1)

store_sample : Option ℕ → DiskSpaceGuard → DiskSpaceGuard
store_sample (some available) g = record g { free_bytes = min available (unknown_free - 1) }
store_sample none g = record g { free_bytes = unknown_free; warned_unavailable = true }

-- The `SamplingFlag` clears `sampling` at the end, also where the caller is dropped on the way.
unfoldable pub refresh : Probe → DiskSpaceGuard → DiskSpaceGuard
unfolding store_sample elapsed_ms
refresh p g = if g.sampling then g else record (store_sample p.available g) {
  last_sample_ms = elapsed_ms p.later;
  sampling = false;
}

unfoldable pub sample_due : Probe → ℕ → DiskSpaceGuard → Bool
unfolding elapsed_ms
sample_due p attempt g =
    if g.last_sample_ms == never_sampled || attempt % g.check_every == 0
    then true
    else leb max_sample_age (elapsed_ms p.now - g.last_sample_ms)

verdict : DiskSpaceGuard → Option AppendError
unfolding known_free
verdict g = elim (known_free g) [
  | some available ↦
      if ltb available g.min_free_bytes
      then some (insufficient_disk_space available g.min_free_bytes)
      else none
  | none ↦ none
]

-- The guard after the call, and the refusal.
unfoldable pub admit : Probe → DiskSpaceGuard → DiskSpaceGuard × Option AppendError
unfolding enabled verdict
admit p g =
    if not (enabled g)
    then (g, none)
    else let counted : DiskSpaceGuard = record g { attempts = (g.attempts + 1) % 2 ^ 64 } in
      let sampled = if sample_due p g.attempts g then refresh p counted else counted in
      (sampled, verdict sampled)
