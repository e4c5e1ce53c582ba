-- ===== src/Wal/Batch/Roundtrip.antt =====
-- batch.rs: an envelope decodes to its rows, and no strict prefix of one decodes at all.
use zradar.Base.{
  ℕ, zero, suc, ◌-◌, ◌^◌, ◌≤◌, ◌<◌, ◌≡◌, refl, some, List, [], ◌∷◌, ◌++◌, append_assoc, arith,
  length, take, drop, length-append, take-append, drop-append, ltb, if◌then◌else◌, ◌∙◌, ap, sym,
  drop-sub-length, Bool-cases, inl, inr, take-append_ge, length-take, take-take, ltb_false→le,
}
use zradar.Base.Bytes.{Bytes, to_be, from_be, length-to_be, from_be-to_be, bytes_eq}
use zradar.Wal.Batch.{
  BatchEncoding, json_rows_v1, encoding_from_u8, Result, ok, err, encode_rows, encode_json_rows,
  push_row, decode_rows, with_encoding, decode_tagged, decode, batch_magic, too_short,
}

-- Every row's length fits its u32 prefix.
abbrev pub RowsFit : List Bytes → Type 0
RowsFit [] = Unit
RowsFit (row ∷ rows) = (length row < 256 ^ 4) × RowsFit rows

decode_rows-encode_rows :
    (payload pre : Bytes) (rows : List Bytes) (count : ℕ)
    → RowsFit rows
    → payload ≡ pre ++ encode_rows rows
    → decode_rows payload count (length rows) (encode_rows rows) ≡ ok rows
unfolding decode_rows encode_rows
decode_rows-encode_rows payload pre [] count fit e = refl
decode_rows-encode_rows payload pre (row ∷ rows) count fit e =
    let len = length-to_be 4 (length row) in
    let tail = row ++ encode_rows rows in
    let at_row : payload ≡ (pre ++ to_be 4 (length row)) ++ tail =
      e ∙ sym (append_assoc pre _ tail) in
    let at_rest : payload ≡ ((pre ++ to_be 4 (length row)) ++ row) ++ encode_rows rows =
      at_row ∙ sym (append_assoc _ row (encode_rows rows)) in
    simp
      (
        take-append 4 _ tail len,
        drop-append 4 _ tail len,
        from_be-to_be 4 _ fit.0,
        drop-sub-length _ tail payload at_row,
        take-append (length row) row (encode_rows rows) refl,
        drop-append (length row) row (encode_rows rows) refl,
        decode_rows-encode_rows payload ((pre ++ to_be 4 (length row)) ++ row) rows count fit.1
            at_rest,
      )
      (ground (
        arith,
        length-append (to_be 4 (length row)) tail,
        len,
        length-append row (encode_rows rows),
      ))

-- Decoding gives back the rows, in order.
pub decode-encode_json_rows :
    (rows : List Bytes)
    → RowsFit rows
    → length rows < 256 ^ 4
    → decode (encode_json_rows rows) ≡ ok (some (record { encoding = json_rows_v1; rows = rows }))
unfolding decode encode_json_rows bytes_eq encoding_from_u8
decode-encode_json_rows rows fit few =
    let len = length-to_be 4 (length rows) in
    simp
      (
        take-append 4 _ (encode_rows rows) len,
        drop-append 4 _ (encode_rows rows) len,
        from_be-to_be 4 _ few,
        decode_rows-encode_rows (encode_json_rows rows) (batch_magic ++ 1 ∷ to_be 4 (length rows))
            rows (length rows) fit refl,
      )
      (ground (arith, length-append (to_be 4 (length rows)) (encode_rows rows), len))

abbrev pub IsErr {ℓ} : {A : Type ℓ} → Result A → Type 0
IsErr (ok a) = ⊥
IsErr (err e) = Unit

push_row-IsErr : (row : Bytes) (r : Result (List Bytes)) → IsErr r → IsErr (push_row row r)
unfolding push_row
push_row-IsErr row (err e) h = tt
push_row-IsErr row (ok rows) h = absurd h

-- A round is refused unless the row is there; then the other rows decide.
decode_rows-suc-IsErr :
    (payload : Bytes) (count n : ℕ) (cursor : Bytes)
    → (4 ≤ length cursor
        → from_be 0 (take 4 cursor) ≤ length (drop 4 cursor)
        → IsErr (decode_rows payload count n (drop (from_be 0 (take 4 cursor)) (drop 4 cursor))))
    → IsErr (decode_rows payload count (suc n) cursor)
unfolding decode_rows
decode_rows-suc-IsErr payload count n cursor h = elim (Bool-cases (ltb (length cursor) 4)) [
  | inl few ↦ rw few tt
  | inr enough ↦ elim (Bool-cases (ltb (length (drop 4 cursor)) (from_be 0 (take 4 cursor)))) [
    | inl short ↦ rw (enough, short) tt
    | inr there ↦
        rw (enough, there)
          (push_row-IsErr _ _ (h (ltb_false→le _ _ enough) (ltb_false→le _ _ there)))
  ]
]

-- Rows cut short anywhere are refused.
decode_rows-take-IsErr :
    (payload : Bytes) (rows : List Bytes) (count k : ℕ)
    → RowsFit rows
    → k < length (encode_rows rows)
    → IsErr (decode_rows payload count (length rows) (take k (encode_rows rows)))
unfolding encode_rows
decode_rows-take-IsErr payload [] count k fit h = absurd (omega arith)
decode_rows-take-IsErr payload (row ∷ rows) count k fit h =
    let prefix = to_be 4 (length row) in
    let tail = row ++ encode_rows rows in
    let len = length-to_be 4 (length row) in
    let size = length-take k (prefix ++ tail) in
    let sizes = length-append prefix tail in
    let tails = length-append row (encode_rows rows) in
    decode_rows-suc-IsErr payload count (length rows) (take k (prefix ++ tail)) λ enough there.
      let k4 : 4 ≤ k = omega arith in
      let read : from_be 0 (take 4 (take k (prefix ++ tail))) ≡ length row =
        rw (take-take 4 k (prefix ++ tail) k4, take-append 4 prefix tail len)
          (from_be-to_be 4 (length row) fit.0) in
      let after : drop 4 (take k (prefix ++ tail)) ≡ take (k - 4) tail =
        rw (take-append_ge k prefix tail (omega arith), drop-append 4 prefix _ len, len) in
      let within : length row ≤ k - 4 =
        omega (arith, ap (λ (l : Bytes). length l) after, length-take (k - 4) tail) in
      rw
        (
          read,
          after,
          take-append_ge (k - 4) row (encode_rows rows) within,
          drop-append (length row) row _ refl,
        )
        (decode_rows-take-IsErr payload rows count (k - 4 - length row) fit.1 (omega arith))

with_encoding-IsErr :
    (e : BatchEncoding) (r : Result (List Bytes)) → IsErr r → IsErr (with_encoding e r)
unfolding with_encoding
with_encoding-IsErr e (err x) h = tt
with_encoding-IsErr e (ok rows) h = absurd h

decode_tagged-take-IsErr :
    (payload : Bytes) (rows : List Bytes) (j : ℕ)
    → RowsFit rows
    → length rows < 256 ^ 4
    → 4 ≤ j
    → j < length (to_be 4 (length rows) ++ encode_rows rows)
    → IsErr (decode_tagged payload (1 ∷ take j (to_be 4 (length rows) ++ encode_rows rows)))
unfolding decode_tagged encoding_from_u8
decode_tagged-take-IsErr payload rows j fit few h lt =
    let count = to_be 4 (length rows) in
    let len = length-to_be 4 (length rows) in
    let read : from_be 0 (take 4 (take j (count ++ encode_rows rows))) ≡ length rows =
      rw (take-take 4 j (count ++ encode_rows rows) h, take-append 4 count (encode_rows rows) len)
        (from_be-to_be 4 (length rows) few) in
    let after : drop 4 (take j (count ++ encode_rows rows)) ≡ take (j - 4) (encode_rows rows) =
      rw
        (take-append_ge j count (encode_rows rows) (omega arith), drop-append 4 count _ len, len) in
    rw (read, after)
      (with_encoding-IsErr json_rows_v1 _ (
        decode_rows-take-IsErr payload rows (length rows) (j - 4) fit
          (omega (arith, length-append count (encode_rows rows)))))

-- What `decode` does behind the magic and the encoding byte.
decode_behind_magic :
    (rest : Bytes)
    → let payload = batch_magic ++ 1 ∷ rest in
      decode payload ≡ (
        if ltb (length rest) 4
        then err (too_short (length payload))
        else decode_tagged payload (1 ∷ rest))
unfolding decode bytes_eq
decode_behind_magic rest = ground arith

-- An envelope that is cut behind its magic is an error: it is never read as fewer rows, nor as a
-- legacy row.
pub decode-take-IsErr :
    (rows : List Bytes) (k : ℕ)
    → RowsFit rows
    → length rows < 256 ^ 4
    → 4 ≤ k
    → k < length (encode_json_rows rows)
    → IsErr (decode (take k (encode_json_rows rows)))
unfolding encode_json_rows
decode-take-IsErr rows (suc (suc (suc (suc zero)))) fit few h lt = unfold decode bytes_eq in tt
decode-take-IsErr rows (suc (suc (suc (suc (suc j))))) fit few h lt =
    let size = length-take j (to_be 4 (length rows) ++ encode_rows rows) in
    rw (decode_behind_magic (take j (to_be 4 (length rows) ++ encode_rows rows)))
      (elim (Bool-cases (ltb (length (take j (to_be 4 (length rows) ++ encode_rows rows))) 4)) [
        | inl short ↦ rw short tt
        | inr enough ↦ rw enough (
            decode_tagged-take-IsErr _ rows j fit few (omega (arith, ltb_false→le _ _ enough))
              (omega arith))
      ])
decode-take-IsErr rows _ fit few h lt = absurd (omega arith)
