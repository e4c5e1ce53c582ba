-- ===== src/Storage/Sink/Arrives.antt =====
-- builder.rs: the rows of the WAL's records arrive in the slots of their own keys.
use zradar.Base.{
  ◌≡◌, refl, sym, ap, ◌∙◌, Option, none, some, List, [], ◌∷◌, ◌++◌, append_assoc, append-nil, Bool,
  true, false, if◌then◌else◌, Bool-cases, inl, inr, length, ◌<◌, ◌^◌,
}
use zradar.Base.Bytes.{Bytes}
use zradar.Wal.Batch.{BatchPayload, Result, decode, encode_json_rows}
use zradar.Wal.Batch.Roundtrip.{RowsFit, decode-encode_json_rows}
use zradar.Wal.Record.{SignalType, trace, metric, log, score, WalRecord}
use zradar.Storage.Sink.{Decoded, to_list, push_one, push_all, take_payload, decode_records}

same_signal : SignalType → SignalType → Bool
same_signal trace trace = true
same_signal metric metric = true
same_signal log log = true
same_signal score score = true
same_signal _ _ = false

-- The texts of rows that a payload carries.
abbrev texts_of : Bytes → Result (Option BatchPayload) → List Bytes
texts_of payload (Result.ok (some batch)) = batch.rows
texts_of payload (Result.ok none) = payload ∷ []
texts_of payload (Result.err e) = []

module _ {Row : SignalType → Type 0} (parse : (k : SignalType) → Bytes → Option (Row k)) where
  unfoldable pub parse_all : (k : SignalType) → List Bytes → List (Row k)
  parse_all k [] = []
  parse_all k (text ∷ texts) = to_list (parse k text) ++ parse_all k texts

  pub parse_all-append :
      (k : SignalType) (xs ys : List Bytes)
      → parse_all k (xs ++ ys) ≡ parse_all k xs ++ parse_all k ys
  unfolding parse_all
  parse_all-append k [] ys = refl
  parse_all-append k (x ∷ xs) ys =
      ap (λ l. to_list (parse k x) ++ l) (parse_all-append k xs ys)
      ∙ sym (append_assoc (to_list (parse k x)) (parse_all k xs) (parse_all k ys))

  -- The rows of a signal that records carry, in order.
  unfoldable pub decoded_rows : (k : SignalType) → List WalRecord → List (Row k)
  unfolding parse_all same_signal
  decoded_rows k [] = []
  decoded_rows k (rec ∷ recs) =
      (if same_signal k rec.signal_type
        then parse_all k (texts_of rec.payload (decode rec.payload))
        else [])
      ++ decoded_rows k recs

  abbrev pub vector : (k : SignalType) → Decoded Row → List (Row k)
  vector trace d = d.spans
  vector metric d = d.metrics
  vector log d = d.logs
  vector score d = d.scores

  vector-push_one :
      (k j : SignalType) (text : Bytes) (d : Decoded Row)
      → vector k (push_one parse j text d)
        ≡ vector k d ++ (if same_signal k j then to_list (parse k text) else [])
  unfolding push_one same_signal
  vector-push_one trace trace text d = refl
  vector-push_one metric metric text d = refl
  vector-push_one log log text d = refl
  vector-push_one score score text d = refl
  vector-push_one trace _ text d = sym (append-nil d.spans)
  vector-push_one metric _ text d = sym (append-nil d.metrics)
  vector-push_one log _ text d = sym (append-nil d.logs)
  vector-push_one score _ text d = sym (append-nil d.scores)

  either_append :
      {A : Type 0} (b : Bool) (xs ys : List A)
      → (if b then xs else []) ++ (if b then ys else []) ≡ (if b then xs ++ ys else [])
  either_append true xs ys = refl
  either_append false xs ys = refl

  vector-push_all :
      (k j : SignalType) (texts : List Bytes) (d : Decoded Row)
      → vector k (push_all parse j texts d)
        ≡ vector k d ++ (if same_signal k j then parse_all k texts else [])
  unfolding push_all parse_all
  vector-push_all k j [] d = elim (Bool-cases (same_signal k j)) [
    | inl same ↦ rw same (sym (append-nil (vector k d)))
    | inr other ↦ rw other (sym (append-nil (vector k d)))
  ]
  vector-push_all k j (text ∷ texts) d =
      let same = same_signal k j in
      let first = to_list (parse k text) in
      vector-push_all k j texts (push_one parse j text d)
      ∙ ap (λ (l : List (Row k)). l ++ (if same then parse_all k texts else []))
          (vector-push_one k j text d)
      ∙ append_assoc (vector k d) (if same then first else [])
          (if same then parse_all k texts else [])
      ∙ ap (λ (l : List (Row k)). vector k d ++ l) (either_append same first (parse_all k texts))

  vector-take_payload :
      (k j : SignalType) (payload : Bytes) (r : Result (Option BatchPayload)) (d : Decoded Row)
      → vector k (take_payload parse j payload r d)
        ≡ vector k d ++ (if same_signal k j then parse_all k (texts_of payload r) else [])
  unfolding take_payload
  vector-take_payload k j payload (Result.ok (some batch)) d = vector-push_all k j batch.rows d
  vector-take_payload k j payload (Result.ok none) d =
      unfold push_all in vector-push_all k j (payload ∷ []) d
  vector-take_payload k j payload (Result.err e) d = unfold push_all in vector-push_all k j [] d

  pub vector-decode_records :
      (k : SignalType) (recs : List WalRecord) (d : Decoded Row)
      → vector k (decode_records parse recs d) ≡ vector k d ++ decoded_rows k recs
  unfolding decode_records decoded_rows
  vector-decode_records k [] d = sym (append-nil (vector k d))
  vector-decode_records k (rec ∷ recs) d =
      let r = decode rec.payload in
      let here =
        if same_signal k rec.signal_type then parse_all k (texts_of rec.payload r) else [] in
      vector-decode_records k recs (take_payload parse rec.signal_type rec.payload r d)
      ∙ ap (λ (l : List (Row k)). l ++ decoded_rows k recs)
          (vector-take_payload k rec.signal_type rec.payload r d)
      ∙ append_assoc (vector k d) here (decoded_rows k recs)

  same_signal_refl : (k : SignalType) → same_signal k k ≡ true
  unfolding same_signal
  same_signal_refl trace = refl
  same_signal_refl metric = refl
  same_signal_refl log = refl
  same_signal_refl score = refl

  pub decoded_rows-envelope :
      (k : SignalType) (rec : WalRecord) (texts : List Bytes) (recs : List WalRecord)
      → rec.signal_type ≡ k
      → rec.payload ≡ encode_json_rows texts
      → RowsFit texts
      → length texts < 256 ^ 4
      → decoded_rows k (rec ∷ recs) ≡ parse_all k texts ++ decoded_rows k recs
  unfolding decoded_rows
  decoded_rows-envelope k rec texts recs signal envelope fit few =
      rw (signal, envelope, decode-encode_json_rows texts fit few, same_signal_refl k) refl
