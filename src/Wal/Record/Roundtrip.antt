-- ===== src/Wal/Record/Roundtrip.antt =====
-- record.rs: what `deserialize` makes of the bytes that `serialize` wrote, whole or torn.
use zradar.Base.{
  ℕ, ◌+◌, ◌^◌, ◌≤◌, ◌<◌, ◌≡◌, refl, inl, inr, some, ◌++◌, append_assoc, arith, length, take, drop,
  length-append, take-append, drop-append, take-append_le, take-take, length-take, ltb, ==_refl,
  if◌then◌else◌, Bool-cases, ltb_false→le,
}
use zradar.Base.Bytes.{Bytes, to_be, from_be, length-to_be, from_be-to_be}
use zradar.Wal.Record.{
  SignalType, trace, to_u8, from_u8, WalRecord, IsWire, ok, err, torn_write_incomplete,
  torn_write_truncated, crc_data, body_len, parse_fields, serialize, check_body, deserialize,
}

pub from_u8-to_u8 : (s : SignalType) → from_u8 (to_u8 s) ≡ some s
unfolding from_u8 to_u8
from_u8-to_u8 trace = refl
from_u8-to_u8 _ = refl

length-crc_data : (r : WalRecord) → IsWire r → 4 + length (crc_data r) ≡ body_len r
unfolding crc_data body_len
length-crc_data r w = omega (
  arith,
  length-append {0},
  length-to_be 8 r.arrival_timestamp_ns,
  length-to_be 8 r.assigned_offset,
)

parse_fields-crc_data :
    (r : WalRecord) (offset : ℕ) → IsWire r → parse_fields offset (crc_data r) ≡ ok r
unfolding parse_fields crc_data
parse_fields-crc_data r offset w =
    rw (from_u8-to_u8 r.signal_type, parse_fields)
      (simp
        (
          take-append 16 r.workspace_id _ w.workspace_16,
          drop-append 16 r.workspace_id _ w.workspace_16,
          take-append 8 _ _ (length-to_be 8 r.arrival_timestamp_ns),
          drop-append 8 _ _ (length-to_be 8 r.arrival_timestamp_ns),
          take-append 8 _ _ (length-to_be 8 r.assigned_offset),
          drop-append 8 _ _ (length-to_be 8 r.assigned_offset),
          from_be-to_be 8 _ w.timestamp_64,
          from_be-to_be 8 _ w.offset_64,
        )
        (ground (
          arith,
          length-append r.workspace_id
              (to_be 8 r.arrival_timestamp_ns ++ (to_be 8 r.assigned_offset ++ r.payload)),
          length-append (to_be 8 r.arrival_timestamp_ns) (to_be 8 r.assigned_offset ++ r.payload),
          length-append (to_be 8 r.assigned_offset) r.payload,
          length-to_be 8 r.arrival_timestamp_ns,
          length-to_be 8 r.assigned_offset,
        )))

pub le-body_len : (r : WalRecord) → 37 ≤ body_len r
unfolding body_len
le-body_len r = omega arith

module _ (crc32 : Bytes → ℕ) (crc32_u32 : (b : Bytes) → crc32 b < 256 ^ 4) where
  check_body-crc_data :
      (r : WalRecord) (offset : ℕ)
      → IsWire r
      → check_body crc32 offset (body_len r) (to_be 4 (crc32 (crc_data r)) ++ crc_data r)
        ≡ ok (r, 4 + body_len r)
  unfolding check_body
  check_body-crc_data r offset w =
      simp
        (
          take-append 4 _ _ (length-to_be 4 (crc32 (crc_data r))),
          drop-append 4 _ _ (length-to_be 4 (crc32 (crc_data r))),
          from_be-to_be 4 _ (crc32_u32 (crc_data r)),
          parse_fields-crc_data r offset w,
          ==_refl (crc32 (crc_data r)),
        )
        (ground (arith, le-body_len r))

  pub length-serialize : (r : WalRecord) → IsWire r → length (serialize crc32 r) ≡ 4 + body_len r
  unfolding serialize
  length-serialize r w = omega (
    arith,
    length-append (to_be 4 (body_len r)) (to_be 4 (crc32 (crc_data r)) ++ crc_data r),
    length-append (to_be 4 (crc32 (crc_data r))) (crc_data r),
    length-to_be 4 (body_len r),
    length-to_be 4 (crc32 (crc_data r)),
    length-crc_data r w,
  )

  pub length_prefix :
      (r : WalRecord) → IsWire r → from_be 0 (take 4 (serialize crc32 r)) ≡ body_len r
  unfolding serialize
  length_prefix r w =
      rw (take-append 4 _ _ (length-to_be 4 (body_len r)))
        (from_be-to_be 4 (body_len r) (unfold body_len in omega arith))

  body-serialize :
      (r : WalRecord) (rest : Bytes)
      → IsWire r
      → take (body_len r) (drop 4 (serialize crc32 r ++ rest))
        ≡ to_be 4 (crc32 (crc_data r)) ++ crc_data r
  unfolding serialize
  body-serialize r rest w =
      rw (append_assoc, drop-append 4 _ _ (length-to_be 4 (body_len r)))
        (take-append (body_len r) _ _ (
          omega (
            arith,
            length-append (to_be 4 (crc32 (crc_data r))) (crc_data r),
            length-to_be 4 (crc32 (crc_data r)),
            length-crc_data r w,
          )))

  -- The round trip, with whatever follows the record.
  pub deserialize-serialize :
      (r : WalRecord) (rest : Bytes) (offset : ℕ)
      → IsWire r
      → deserialize crc32 (serialize crc32 r ++ rest) offset ≡ ok (r, length (serialize crc32 r))
  unfolding deserialize
  deserialize-serialize r rest offset w =
      simp
        (
          take-append_le 4 (serialize crc32 r) rest (omega (arith, length-serialize r w)),
          length_prefix r w,
          body-serialize r rest w,
          check_body-crc_data r offset w,
        )
        (ground
          (arith, length-append (serialize crc32 r) rest, length-serialize r w, le-body_len r))

  -- Every strict prefix is reported as torn, with the bytes that are missing.
  pub deserialize-take :
      (r : WalRecord) (k offset : ℕ)
      → IsWire r
      → k < length (serialize crc32 r)
      → deserialize crc32 (take k (serialize crc32 r)) offset
        ≡ err (
            if ltb k 4
            then torn_write_incomplete offset
            else torn_write_truncated offset (length (serialize crc32 r)) k)
  unfolding deserialize
  deserialize-take r k offset w h =
      let size = length-serialize r w in
      let e : length (take k (serialize crc32 r)) ≡ k =
        omega (arith, length-take k (serialize crc32 r)) in
      elim (Bool-cases (ltb k 4)) [
        | inl few ↦ ground (arith, e)
        | inr enough ↦
            rw (take-take 4 k (serialize crc32 r) (ltb_false→le k 4 enough), length_prefix r w)
              (ground (arith, e, size))
      ]
