-- ===== src/Wal/Batch.antt =====
-- batch.rs: the envelope by which one record's payload carries many rows.
pub mod Roundtrip
use zradar.Base.{
  ℕ, zero, suc, ◌+◌, ◌-◌, Option, none, some, List, [], ◌∷◌, ◌++◌, length, take, drop, ltb, ◌==◌,
  if◌then◌else◌, Bool, not,
}
use zradar.Base.Bytes.{Bytes, to_be, from_be, bytes_eq}
use mathlib.Core.Bool.{◌||◌}

-- b"ZWB1"
abbrev pub batch_magic : Bytes
batch_magic = b'Z' ∷ b'W' ∷ b'B' ∷ b'1' ∷ []

pub data BatchEncoding : Type 0 where
  json_rows_v1 : BatchEncoding

-- `BatchEncoding::from_u8`
unfoldable pub encoding_from_u8 : ℕ → Option BatchEncoding
encoding_from_u8 v = if v == 1 then some json_rows_v1 else none

pub data BatchDecodeError : Type 0 where
  too_short : (len : ℕ) → BatchDecodeError
  unknown_encoding : (tag : ℕ) → BatchDecodeError
  row_truncated : (index needed remaining : ℕ) → BatchDecodeError
  count_mismatch : (declared decoded : ℕ) → BatchDecodeError

pub data Result {ℓ} (A : Type ℓ) : Type ℓ where
  ok : A → Result A
  err : BatchDecodeError → Result A

-- The loop that frames the rows.
unfoldable pub encode_rows : List Bytes → Bytes
encode_rows [] = []
encode_rows (row ∷ rows) = to_be 4 (length row) ++ (row ++ encode_rows rows)

unfoldable pub encode_json_rows : List Bytes → Bytes
unfolding encode_rows
encode_json_rows rows = batch_magic ++ 1 ∷ (to_be 4 (length rows) ++ encode_rows rows)

pub record BatchPayload : Type 0 where
  pub encoding : BatchEncoding
  pub rows : List Bytes

push_row : Bytes → Result (List Bytes) → Result (List Bytes)
push_row row (ok rows) = ok (row ∷ rows)
push_row row (err e) = err e

-- `for i in 0..count`, over the rounds that are left: `i` is `count - rounds`. A row is the slice of
-- the payload that starts where the cursor stands.
pub decode_rows : Bytes → ℕ → ℕ → Bytes → Result (List Bytes)
unfolding push_row
decode_rows payload count zero cursor = ok []
decode_rows payload count (suc rounds) cursor =
    let i = count - suc rounds in
    let row_len = from_be 0 (take 4 cursor) in
    let after = drop 4 cursor in
    let row = take row_len (drop (length payload - length after) payload) in
    let rest = push_row row (decode_rows payload count rounds (drop row_len after)) in
    if ltb (length cursor) 4
    then err (count_mismatch count i)
    else if ltb (length after) row_len
    then err (row_truncated i row_len (length after))
    else rest

with_encoding : BatchEncoding → Result (List Bytes) → Result (Option BatchPayload)
with_encoding e (ok rows) = ok (some (record { encoding = e; rows = rows }))
with_encoding e (err x) = err x

-- The encoding byte, the count and the rows, from behind the magic.
decode_tagged : Bytes → Bytes → Result (Option BatchPayload)
unfolding with_encoding
decode_tagged payload [] = err (too_short (length payload))
decode_tagged payload (enc_byte ∷ cursor) = elim (encoding_from_u8 enc_byte) [
  | none ↦ err (unknown_encoding enc_byte)
  | some e ↦
      let count = from_be 0 (take 4 cursor) in
      with_encoding e (decode_rows payload count count (drop 4 cursor))
]

-- `payload.len() < 4 || &payload[..4] != BATCH_MAGIC`
unfoldable pub lacks_magic : Bytes → Bool
unfolding bytes_eq
lacks_magic payload = ltb (length payload) 4 || not (bytes_eq (take 4 payload) batch_magic)

unfoldable pub decode : Bytes → Result (Option BatchPayload)
unfolding decode_tagged lacks_magic
decode payload =
    if lacks_magic payload
    then ok none
    else if ltb (length payload) (4 + 1 + 4)
    then err (too_short (length payload))
    else decode_tagged payload (drop 4 payload)
