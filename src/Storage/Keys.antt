-- ===== src/Storage/Keys.antt =====
-- telemetry_writer.rs and writer.rs: the partition that a row belongs to.
-- A string is its bytes. chrono's formatting is another package's: `format_hour` gives the text
-- "%Y/%m/%d/%H" of a time, which the hours since the epoch determine.
pub mod Hours
use zradar.Base.{ℕ, ◌≡◌, refl, List, [], ◌∷◌, Bool, true, false, ◌&&◌, if◌then◌else◌, arith, ap}
use zradar.Base.Bytes.{Bytes, bytes_eq, bytes_eq_refl, bytes_eq→≡}
use zradar.Base.Integers.{ℤ, quotient, div_euclid, eq_ℤ}

pub record PartitionKey : Type 0 where
  pub workspace_id : Bytes
  pub stream_name : Bytes
  pub hour : Bytes

-- "default"
abbrev default_stream : Bytes
default_stream = b'd' ∷ b'e' ∷ b'f' ∷ b'a' ∷ b'u' ∷ b'l' ∷ b't' ∷ []

unfoldable pub stream_of : Bytes → Bytes
stream_of [] = default_stream
stream_of (c ∷ cs) = c ∷ cs

abbrev pub nanos_per_hour : ℕ
nanos_per_hour = 3_600_000_000_000

-- The seconds are rounded toward zero, and chrono's hour is that of the seconds.
unfoldable pub ts_ns_to_date_path : (ℤ → Bytes) → ℤ → Bytes
unfolding quotient div_euclid
ts_ns_to_date_path format_hour ts_ns = format_hour (div_euclid (quotient ts_ns 1_000_000_000) 3_600)

unfoldable pub key_of_row : (ℤ → Bytes) → Bytes → Bytes → ℤ → PartitionKey
unfolding stream_of ts_ns_to_date_path
key_of_row format_hour workspace_id service_name ts_ns = record {
  workspace_id = workspace_id;
  stream_name = stream_of service_name;
  hour = ts_ns_to_date_path format_hour ts_ns;
}

-- `==` of the derived PartialEq.
unfoldable pub key_eq : PartitionKey → PartitionKey → Bool
key_eq a b =
    bytes_eq a.workspace_id b.workspace_id
    && bytes_eq a.stream_name b.stream_name
    && bytes_eq a.hour b.hour

pub key_eq_refl : (a : PartitionKey) → key_eq a a ≡ true
unfolding key_eq
key_eq_refl a =
    ground (arith, bytes_eq_refl a.workspace_id, bytes_eq_refl a.stream_name, bytes_eq_refl a.hour)

and-true : (a b : Bool) → (a && b) ≡ true → (a ≡ true) × (b ≡ true)
and-true true b h = (refl, h)
and-true false b h = cc

pub key_eq→≡ : (a b : PartitionKey) → key_eq a b ≡ true → a ≡ b
unfolding key_eq
key_eq→≡ a b h =
    let (ab, hours) = and-true _ _ h in
    let (spaces, streams) = and-true _ _ ab in
    let w = bytes_eq→≡ a.workspace_id b.workspace_id spaces in
    let s = bytes_eq→≡ a.stream_name b.stream_name streams in
    let t = bytes_eq→≡ a.hour b.hour hours in
    λ i. record { workspace_id = w i; stream_name = s i; hour = t i }
