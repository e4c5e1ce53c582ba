-- ===== src/Storage/Keys/Hours.antt =====
-- telemetry_writer.rs: the hour bucket that `is_homogeneous` compares, against the formatted hour.
use zradar.Base.{ℕ, ◌/◌, ◌≡◌, ap, arith}
use zradar.Base.Bytes.{Bytes}
use zradar.Base.Integers.{ℤ, pos, negsuc, div_euclid, quotient}
use zradar.Storage.Keys.{nanos_per_hour, ts_ns_to_date_path}

magnitude : ℤ → ℕ
magnitude (pos n) = n
magnitude (negsuc n) = n

-- Of times from the epoch on, those in one hour bucket have the same formatted hour.
pub ts_ns_to_date_path_bucket :
    (format_hour : ℤ → Bytes) (a b : ℕ)
    → div_euclid (pos a) nanos_per_hour ≡ div_euclid (pos b) nanos_per_hour
    → ts_ns_to_date_path format_hour (pos a) ≡ ts_ns_to_date_path format_hour (pos b)
unfolding ts_ns_to_date_path div_euclid quotient magnitude
ts_ns_to_date_path_bucket format_hour a b h =
    let same : a / 3_600_000_000_000 ≡ b / 3_600_000_000_000 = ap magnitude h in
    ap (λ (k : ℕ). format_hour (pos k)) (omega arith)
