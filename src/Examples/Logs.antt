-- ===== src/Examples/Logs.antt =====
-- A log of one record: appends to it, and passes of the flusher over it.
use zradar.Base.{
  ℕ, ◌+◌, ◌%◌, ◌^◌, ◌≡◌, ◌<◌, refl, none, some, List, [], ◌∷◌, ◌++◌, true, false, arith, length,
}
use zradar.Base.Bytes.{to_be}
use zradar.Wal.AppendError.{io, storage_full}
use zradar.Wal.Disk.{DiskSpaceGuard, Probe, u64_max, admit, sample_due, elapsed_ms}
use zradar.Wal.Disk.Laws.{IsIdle, seen, refusal, admit-refusal}
use zradar.Wal.GroupCommit
use zradar.Wal.GroupCommit.{register}
use zradar.Wal.Record.{IsWire, serialize, crc_data, body_len, to_u8}
use zradar.Wal.Segment.Frames.{frames}
use zradar.Wal.Log.{Wal, Faults, created, no_faults, stamp, rotates, Appended, append}
use zradar.Wal.Log.View.{contents, Segment, IsSegment, AllSegments, files, file_of, IsLog}
use zradar.Wal.Log.Append.{append-contents}
use zradar.Wal.Log.Faulty.{append_err-contents}
use zradar.Wal.Flusher.{FlushState, flush_once, batch_of, skips}
use zradar.Wal.Flusher.Pending.{pending}
use zradar.Wal.Flusher.Pass.{flush_once-exact}
use zradar.Wal.Flusher.Complete.{flush_once_complete}
use zradar.Examples.Data.{
  checksum, checksum_u32, span_record, span_record-IsWire, log_record, log_record-IsWire,
}

abbrev pub guard : DiskSpaceGuard
guard = record {
  min_free_bytes = 100;
  check_every = 64;
  attempts = 1;
  free_bytes = 5_000;
  last_sample_ms = 10;
  sampling = false;
  warned_unavailable = false;
}

guard-IsIdle : IsIdle guard
guard-IsIdle = record { at_rest = refl; every = omega arith }

-- Little time has passed since the last sample, or more than a second.
abbrev pub soon : Probe
soon = record { now = 20; later = 20; available = some 40 }

abbrev late : Probe
late = record { now = 2_000; later = 2_001; available = some 40 }

late_fits : (available : ℕ) → late.available ≡ some available → available < u64_max
late_fits available e = let same : available ≡ 40 = cc in omega (arith, same)

admit-refusal_example : (admit late guard).1 ≡ refusal 100 (seen late guard)
admit-refusal_example = admit-refusal late guard guard-IsIdle (omega arith) late_fits

abbrev pub one_segment : Segment
one_segment = record { id = 0; records = span_record ∷ [] }

abbrev pub log : Wal
log = record {
  dir = files checksum [] ++ file_of checksum one_segment ∷ [];
  current = some 0;
  segment_max_bytes = 100;
  writer = record {
    segment_id = 0;
    current_size = 13 + length (frames checksum (span_record ∷ []));
  };
  fsync_queue = GroupCommit.new;
  offset_counter = 4;
  disk_guard = guard;
}

pub one_segment-IsSegment : IsSegment one_segment
one_segment-IsSegment = record { id_64 = omega arith; wire = (span_record-IsWire, tt) }

abbrev pub log-IsLog : IsLog checksum log
unfolding files
log-IsLog = record {
  older = [];
  active = one_segment;
  older_wire = tt;
  active_wire = one_segment-IsSegment;
  on_disk = refl;
  below = tt;
  writer_id = refl;
  writer_size = refl;
}

pub soon_admitted : (admit soon guard).1 ≡ none
unfolding admit sample_due elapsed_ms
soon_admitted = refl

stamped-IsWire : IsWire (stamp 4 log_record)
unfolding stamp
stamped-IsWire = log_record-IsWire

append-contents_example :
    let w' = (append checksum soon no_faults log_record log).0 in
    IsLog checksum w'
    × (contents checksum w'.dir ≡ contents checksum log.dir ++ stamp 4 log_record ∷ [])
    × (w'.offset_counter ≡ (4 + 1) % 2 ^ 64)
    × ((append checksum soon no_faults log_record log).1 ≡ Appended.ok log.fsync_queue.next_ticket)
unfolding files
append-contents_example =
    append-contents checksum checksum_u32 soon log_record log log-IsLog stamped-IsWire (omega arith)
      soon_admitted

-- The disk fills up seven bytes into the record.
abbrev disk_full : Faults
disk_full = record {
  fsync = none;
  create = created;
  symlink = none;
  write = some (7, storage_full);
}

disk_full_fails : (append checksum soon disk_full log_record log).1 ≡ Appended.err (io storage_full)
unfolding append rotates admit sample_due elapsed_ms serialize crc_data body_len to_u8 to_be frames
    stamp
disk_full_fails = refl

append_err-contents_example :
    contents checksum (append checksum soon disk_full log_record log).0.dir
    ≡ contents checksum log.dir
unfolding files
append_err-contents_example =
    append_err-contents checksum checksum_u32 soon disk_full log_record log (io storage_full)
      log-IsLog stamped-IsWire (omega arith)
      (λ n k e. unfold serialize crc_data body_len to_u8 to_be in ground arith) disk_full_fails

abbrev pub two_segments : List Segment
two_segments = one_segment ∷ record { id = 1; records = log_record ∷ [] } ∷ []

pub two_segments-AllSegments : AllSegments two_segments
two_segments-AllSegments =
    (one_segment-IsSegment, (record { id_64 = omega arith; wire = (log_record-IsWire, tt) }, tt))

-- The first record is flushed.
abbrev pub half_way : FlushState
half_way = record {
  checkpoint =
      some
        (record { last_flushed_segment_id = 0; last_flushed_offset = 3; wal_format_version = 1 });
  confirmed = span_record ∷ [];
  lag_bytes = 0;
}

pub half_way_total :
    half_way.confirmed ++ pending half_way.checkpoint two_segments ≡ span_record ∷ log_record ∷ []
unfolding pending batch_of skips
half_way_total = refl

-- A sink that takes nothing.
flush_once-exact_example :
    let s' =
      (flush_once checksum (λ b. false) (λ c. true) (files checksum two_segments) 1 5 half_way).0 in
    s'.confirmed ++ pending s'.checkpoint two_segments ≡ span_record ∷ log_record ∷ []
flush_once-exact_example =
    flush_once-exact checksum (λ b. false) (λ c. true) checksum_u32 1 5 two_segments half_way
      (span_record ∷ log_record ∷ []) (λ c. refl) two_segments-AllSegments (omega arith)
      half_way_total

flush_once_complete_example :
    let s' =
      (flush_once checksum (λ b. true) (λ c. true) (files checksum two_segments) 1 5 half_way).0 in
    (s'.confirmed ≡ span_record ∷ log_record ∷ []) × (pending s'.checkpoint two_segments ≡ [])
flush_once_complete_example =
    flush_once_complete checksum (λ b. true) (λ c. true) checksum_u32 (λ b. refl) (λ c. refl) 1 5
      two_segments half_way (span_record ∷ log_record ∷ []) two_segments-AllSegments (omega arith)
      (omega arith) half_way_total
