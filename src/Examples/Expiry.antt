-- ===== src/Examples/Expiry.antt =====
-- Retention on a list of two files, one old and one marked as deleted.
use zradar.Base.{
  ℕ, ◌*◌, ◌/◌, ◌^◌, ◌<◌, ◌≡◌, refl, none, some, List, [], ◌∷◌, length, true, false, ltb, arith,
}
use zradar.Base.Bytes.{Bytes, bytes_eq}
use zradar.Base.Integers.{pos, leb_ℤ, ◌+ℤ◌, wrap_i64, i64_of_u64, negate, neg, sub_nat}
use zradar.Retention.Config.{
  RetentionConfigStore, get_cutoff_us, get_cutoff_ns, get_effective_days, find_days,
  timestamp_nanos,
}
use zradar.Retention.Enforcer.{clamp, ok, enforce, enforce_start, enforced}
use zradar.Retention.Enforcer.Covers.{enforce-Expired}
use zradar.Retention.Cleanup.{FileListEntry, in_scope, query_files, run_now_scoped}
use zradar.Retention.Cleanup.Marks.{Expired, run_now_scoped-marks}
use zradar.Retention.Leases.{Readers, LeaseStep, acquires, drops, get_count, is_leased, lease_steps}
use zradar.Retention.Leases.Counts.{occurrences, IsCounted, lease_steps-leased}
use zradar.Retention.Reclaimer.{Backend, removed, reclaim_now_scoped}
use zradar.Retention.Reclaimer.Removes.{Sound, reclaim_now_scoped-Sound}
use mathlib.Core.List.{Memᴰ}

abbrev space : Bytes
space = b'w' ∷ []

-- A day of retention.
abbrev one_day : RetentionConfigStore
one_day = record {
  configs = record { workspace_id = space; retention_days = 1 } ∷ [];
  global_default_days = 30;
}

abbrev old_file : FileListEntry
old_file = record {
  id = 1;
  workspace_id = space;
  max_ts = pos 5;
  compressed_size = pos 100;
  deleted = false;
  location = [];
  file_path = b'a' ∷ [];
}

abbrev marked_file : FileListEntry
marked_file = record {
  id = 2;
  workspace_id = space;
  max_ts = pos 4;
  compressed_size = pos 200;
  deleted = true;
  location = [];
  file_path = b'b' ∷ [];
}

abbrev listed_files : List FileListEntry
listed_files = old_file ∷ marked_file ∷ []

run_now_scoped-marks_example :
    let c = run_now_scoped (λ w. true) one_day 100_000_000_000_000 (some space) listed_files in
    ((id : ℕ)
      → Memᴰ id c.marked
      → Expired
          (λ w. true)
          one_day
          100_000_000_000_000
          (query_files (some space) false listed_files)
          id)
    × ((f : FileListEntry)
        → Memᴰ f listed_files
        → f.deleted ≡ false
        → in_scope (some space) f.workspace_id ≡ true
        → leb_ℤ f.max_ts (get_cutoff_us f.workspace_id 100_000_000_000_000 one_day) ≡ true
        → true ≡ true
        → Memᴰ f.id c.marked)
    × (c.stats.files_marked ≡ length c.marked)
run_now_scoped-marks_example =
    run_now_scoped-marks (λ w. true) one_day 100_000_000_000_000 (some space) listed_files

old_file_old : leb_ℤ (pos 5) (get_cutoff_us space 100_000_000_000_000 one_day) ≡ true
unfolding get_cutoff_us get_effective_days find_days bytes_eq wrap_i64 i64_of_u64 ◌+ℤ◌ negate neg
    sub_nat leb_ℤ
old_file_old = refl

abbrev old_expired : Expired (λ w. true) one_day 100_000_000_000_000 listed_files 1
old_expired = record {
  file = old_file;
  listed = Memᴰ.head refl;
  same_id = refl;
  old = old_file_old;
  marks = refl;
}

old_start :
    enforce clamp space (some (pos 7)) 100_000_000_000_000 one_day
    ≡ ok (pos 13_600_000_000_000) (record {
      modified = true;
      retention_days = 1;
      effective_start_ns = pos 13_600_000_000_000;
    })
unfolding enforce enforce_start enforced get_cutoff_ns get_effective_days find_days bytes_eq
    timestamp_nanos wrap_i64 i64_of_u64 ◌+ℤ◌ negate neg sub_nat leb_ℤ
old_start = refl

days_fit : get_effective_days space one_day * 86_400 * 1_000_000_000 < 2 ^ 63
unfolding get_effective_days find_days bytes_eq
days_fit = omega arith

in_file : leb_ℤ (pos (5_999 / 1_000)) (pos 5) ≡ true
unfolding leb_ℤ
in_file = refl

enforce-Expired_example : leb_ℤ (pos 5_999) (pos 13_600_000_000_000 +ℤ pos 999) ≡ true
enforce-Expired_example =
    enforce-Expired (λ w. true) one_day 100_000_000_000_000 100_000_000_000_000 listed_files 1
      old_expired clamp (some (pos 7)) (pos 13_600_000_000_000)
      (record { modified = true; retention_days = 1; effective_start_ns = pos 13_600_000_000_000 })
      5_999 (omega arith) (omega arith) days_fit in_file old_start

abbrev no_readers : Readers
no_readers = record { registry = record { counts = [] }; held = [] }

no_readers-IsCounted : IsCounted no_readers
unfolding occurrences get_count
no_readers-IsCounted = record { unique = tt; counted = λ id. refl }

-- Two leases of the marked file, of which one is dropped.
abbrev lease_history : List LeaseStep
lease_history = acquires (2 ∷ 2 ∷ []) ∷ drops 0 ∷ []

lease_steps-leased_example :
    IsCounted (lease_steps lease_history no_readers)
    × ((id : ℕ)
        → is_leased id (lease_steps lease_history no_readers).registry
          ≡ ltb 0 (occurrences id (lease_steps lease_history no_readers).held))
lease_steps-leased_example = lease_steps-leased lease_history no_readers no_readers-IsCounted

abbrev local_disk : Backend
local_disk = record { remove_file = λ path. removed; block_storage = none; commit_ok = λ w. true }

reclaim_now_scoped-Sound_example :
    let files = query_files none true listed_files in
    Sound no_readers.registry local_disk files []
      (reclaim_now_scoped no_readers.registry local_disk none listed_files)
    × ((f : FileListEntry) → Memᴰ f files → Memᴰ f listed_files × (f.deleted ≡ true))
reclaim_now_scoped-Sound_example =
    reclaim_now_scoped-Sound no_readers.registry local_disk none listed_files
