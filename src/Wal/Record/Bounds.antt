-- ===== src/Wal/Record/Bounds.antt =====
-- record.rs: what `deserialize` reports of any input: how much it consumes, and where it panics.
use zradar.Base.{
  ℕ, ◌+◌, ◌≤◌, ◌<◌, ◌≡◌, ◌≢◌, refl, [], ◌∷◌, length, take, drop, length-take, length-drop, arith,
}
use zradar.Base.Bytes.{Bytes, from_be}
use zradar.Wal.Record.{
  WalRecord, Outcome, ok, err, panic, parse_fields, consumed, check_body, deserialize,
}

parse_fields_size :
    (offset : ℕ) (input : Bytes) (rec : WalRecord)
    → parse_fields offset input ≡ ok rec
    → length input ≡ 33 + length rec.payload
unfolding parse_fields
parse_fields_size offset [] rec h = cc
parse_fields_size offset (b ∷ cursor) rec h = ground (
  arith,
  length-drop 16 cursor,
  length-drop 8 (drop 16 cursor),
  length-drop 8 (drop 8 (drop 16 cursor)),
)

consumed_inv :
    (k n : ℕ) (o : Outcome WalRecord) (rec : WalRecord)
    → consumed k o ≡ ok (rec, n)
    → (o ≡ ok rec) × (n ≡ k)
unfolding consumed
consumed_inv k n (ok r) rec h = ground arith
consumed_inv k n (err e) rec h = cc
consumed_inv k n panic rec h = cc

consumed-ne-panic : (k : ℕ) (o : Outcome WalRecord) → o ≢ panic → consumed k o ≢ panic
unfolding consumed
consumed-ne-panic k (ok r) h e = cc
consumed-ne-panic k (err x) h e = cc
consumed-ne-panic k panic h e = h refl

parse_fields-ne-panic :
    (offset : ℕ) (input : Bytes) → 33 ≤ length input → parse_fields offset input ≢ panic
unfolding parse_fields
parse_fields-ne-panic offset [] h = absurd (omega arith)
parse_fields-ne-panic offset (b ∷ cursor) h = ground arith

module _ (crc32 : Bytes → ℕ) where
  check_body_size :
      (offset len : ℕ) (body : Bytes) (rec : WalRecord) (n : ℕ)
      → check_body crc32 offset len body ≡ ok (rec, n)
      → (length body ≡ 37 + length rec.payload) × (n ≡ 4 + len)
  unfolding check_body
  check_body_size offset len body rec n h = ground (
    arith,
    consumed_inv (4 + len) n (parse_fields offset (drop 4 body)) rec,
    parse_fields_size offset (drop 4 body) rec,
    length-drop 4 body,
  )

  -- A record that is read takes its header and its payload, all of it inside the input.
  pub deserialize_size :
      (input : Bytes) (offset : ℕ) (rec : WalRecord) (n : ℕ)
      → deserialize crc32 input offset ≡ ok (rec, n)
      → (n ≡ 41 + length rec.payload) × (n ≤ length input)
  unfolding deserialize
  deserialize_size input offset rec n h =
      let len = from_be 0 (take 4 input) in
      ground (
        arith,
        check_body_size offset len (take len (drop 4 input)) rec n,
        length-take len (drop 4 input),
        length-drop 4 input,
      )

  -- A length prefix below four, with the bytes that it announces behind it, is not refused: taking the
  -- CRC out of the body panics.
  pub deserialize_panics :
      (input : Bytes) (offset : ℕ)
      → 4 + from_be 0 (take 4 input) ≤ length input
      → from_be 0 (take 4 input) < 4
      → deserialize crc32 input offset ≡ panic
  unfolding deserialize check_body
  deserialize_panics input offset h few = ground arith

  -- A length prefix that covers the fixed fields never panics, whatever the bytes are.
  pub deserialize-ne-panic :
      (input : Bytes) (offset : ℕ)
      → 37 ≤ from_be 0 (take 4 input)
      → deserialize crc32 input offset ≢ panic
  unfolding deserialize check_body
  deserialize-ne-panic input offset h =
      let len = from_be 0 (take 4 input) in
      ground (
        arith,
        consumed-ne-panic (4 + len) (parse_fields offset (drop 4 (take len (drop 4 input)))),
        parse_fields-ne-panic offset (drop 4 (take len (drop 4 input))),
        length-take len (drop 4 input),
        length-drop 4 input,
        length-drop 4 (take len (drop 4 input)),
      )
