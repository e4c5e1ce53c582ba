-- ===== src/Retention/Enforcer/Covers.antt =====
-- enforcer.rs and cleanup.rs together: no query reaches back to the rows of a file that is marked.
use zradar.Base.{
  ℕ, zero, suc, ◌-◌, ◌*◌, ◌/◌, ◌%◌, ◌^◌, ◌≤◌, ◌<◌, ◌≡◌, refl, sym, ap, ◌∙◌, inl, inr, Option, none,
  some, List, Bool, true, false, leb, ltb, Bool-cases, arith,
}
use zradar.Base.Bytes.{Bytes}
use zradar.Base.Integers.{ℤ, pos, negsuc, neg, sub_nat, ◌+ℤ◌, negate, leb_ℤ, i64_of_u64, wrap_i64}
use zradar.Retention.Config.{
  RetentionConfigStore, get_effective_days, timestamp_nanos, get_cutoff_us, get_cutoff_ns,
}
use zradar.Retention.Cleanup.{FileListEntry}
use zradar.Retention.Cleanup.Marks.{Expired}
use zradar.Retention.Enforcer.{
  EnforcementStrategy, clamp, reject, EnforcementResult, Enforced, ok, err, enforced, enforce_start,
  enforce,
}

i64_of_u64_low : (k : ℕ) → k < 2 ^ 63 → i64_of_u64 (k % 2 ^ 64) ≡ pos k
unfolding i64_of_u64
i64_of_u64_low k h =
    let same : k % 2 ^ 64 ≡ k = omega arith in
    let low : ltb k (2 ^ 63) ≡ true = ground arith in rw (same, low) refl

i64_of_u64_high : (k : ℕ) → k < 2 ^ 63 → i64_of_u64 (2 ^ 64 - 1 - k % 2 ^ 64) ≡ negsuc k
unfolding i64_of_u64
i64_of_u64_high k h =
    let high : ltb (2 ^ 64 - 1 - k % 2 ^ 64) (2 ^ 63) ≡ false = ground arith in
    rw high (ap negsuc (omega arith))

-- A difference that an `i64` holds.
wrap_i64-sub_nat : (m n : ℕ) → m < 2 ^ 63 → n < 2 ^ 63 → wrap_i64 (sub_nat m n) ≡ sub_nat m n
unfolding wrap_i64 sub_nat
wrap_i64-sub_nat m n hm hn = elim (Bool-cases (leb n m)) [
  | inl ge ↦ rw ge (i64_of_u64_low (m - n) (omega arith))
  | inr lt ↦ rw lt (i64_of_u64_high (n - m - 1) (omega arith))
]

add-neg : (a n : ℕ) → pos a +ℤ neg n ≡ sub_nat a n
unfolding ◌+ℤ◌ neg sub_nat
add-neg a zero = ground arith
add-neg a (suc n) = refl

cutoff-sub_nat :
    (a n : ℕ)
    → a < 2 ^ 63
    → n < 2 ^ 63
    → wrap_i64 (pos a +ℤ negate (wrap_i64 (pos n))) ≡ sub_nat a n
cutoff-sub_nat a n ha hn =
    let fits : wrap_i64 (pos n) ≡ pos n = unfold wrap_i64 in i64_of_u64_low n hn in
    let minus : negate (pos n) ≡ neg n = unfold negate in refl in
    ap (λ (z : ℤ). wrap_i64 (pos a +ℤ negate z)) fits
    ∙ ap (λ (z : ℤ). wrap_i64 (pos a +ℤ z)) minus
    ∙ ap wrap_i64 (add-neg a n)
    ∙ wrap_i64-sub_nat a n ha hn

leb_ℤ_refl : (z : ℤ) → leb_ℤ z z ≡ true
unfolding leb_ℤ
leb_ℤ_refl (pos n) = ground arith
leb_ℤ_refl (negsuc n) = ground arith

start_of : Enforced → ℤ
start_of (ok start result) = start
start_of (err days) = pos 0

-- The start that a query is given is not before its cutoff.
enforce_start-cutoff :
    (strategy : EnforcementStrategy) (days : ℕ) (cutoff : ℤ) (start_ns : Option ℤ) (start : ℤ)
    (result : EnforcementResult)
    → leb_ℤ cutoff cutoff ≡ true
    → enforce_start strategy days cutoff start_ns ≡ ok start result
    → leb_ℤ cutoff start ≡ true
unfolding enforce_start enforced start_of
enforce_start-cutoff strategy days cutoff none start result refl_ h =
    ap (leb_ℤ cutoff) (sym (ap start_of h)) ∙ refl_
enforce_start-cutoff clamp days cutoff (some s) start result refl_ h =
    elim (Bool-cases (leb_ℤ cutoff s)) [
      | inl later ↦ ap (leb_ℤ cutoff) (sym (ap start_of (rw later at h))) ∙ later
      | inr earlier ↦ ap (leb_ℤ cutoff) (sym (ap start_of (rw earlier at h))) ∙ refl_
    ]
enforce_start-cutoff reject days cutoff (some s) start result refl_ h =
    elim (Bool-cases (leb_ℤ cutoff s)) [
      | inl later ↦ ap (leb_ℤ cutoff) (sym (ap start_of (rw later at h))) ∙ later
      | inr earlier ↦ absurd (let wrong = rw earlier at h in cc)
    ]

covers_numbers :
    (r now now' days : ℕ) (max_ts start : ℤ)
    → now ≤ now'
    → leb_ℤ (pos (r / 1_000)) max_ts ≡ true
    → leb_ℤ max_ts (sub_nat (now / 1_000) (days * 86_400 * 1_000_000)) ≡ true
    → leb_ℤ (sub_nat now' (days * 86_400 * 1_000_000_000)) start ≡ true
    → leb_ℤ (pos r) (start +ℤ pos 999) ≡ true
unfolding leb_ℤ sub_nat ◌+ℤ◌
covers_numbers r now now' days (pos m) (pos s) le in_file old later = ground arith
covers_numbers r now now' days (pos m) (negsuc s) le in_file old later = ground arith
covers_numbers r now now' days (negsuc m) start le in_file old later = cc

-- A file that a cleanup marks has no row at or after a start that a query of its workspace is given
-- at that time or later, but for the last microsecond before it: the comparison of the cleanup lets
-- in the cutoff itself. The days are few enough that an `i64` holds them in nanoseconds.
pub enforce-Expired :
    (mark_ok : Bytes → Bool) (store : RetentionConfigStore) (now now' : ℕ)
    (file_list : List FileListEntry) (id : ℕ) (e : Expired mark_ok store now file_list id)
    (strategy : EnforcementStrategy) (start_ns : Option ℤ) (start : ℤ) (result : EnforcementResult)
    (row_ts : ℕ)
    → now ≤ now'
    → now' < 2 ^ 63
    → get_effective_days e.file.workspace_id store * 86_400 * 1_000_000_000 < 2 ^ 63
    → leb_ℤ (pos (row_ts / 1_000)) e.file.max_ts ≡ true
    → enforce strategy e.file.workspace_id start_ns now' store ≡ ok start result
    → leb_ℤ (pos row_ts) (start +ℤ pos 999) ≡ true
enforce-Expired mark_ok store now now' file_list id e strategy start_ns start result row_ts le fits
      days_fit in_file given =
    let w = e.file.workspace_id in
    let days = get_effective_days w store in
    let clock : timestamp_nanos now' ≡ now' =
      let low : ltb now' (2 ^ 63) ≡ true = ground arith in unfold timestamp_nanos in rw low refl in
    let us : get_cutoff_us w now store ≡ sub_nat (now / 1_000) (days * 86_400 * 1_000_000) =
      unfold get_cutoff_us in cutoff-sub_nat _ _ (omega arith) (omega arith) in
    let ns : get_cutoff_ns w now' store ≡ sub_nat now' (days * 86_400 * 1_000_000_000) =
      unfold get_cutoff_ns in
      (ap (λ (t : ℕ). wrap_i64 (pos t +ℤ negate (wrap_i64 (pos (days * 86_400 * 1_000_000_000)))))
          clock
        ∙ cutoff-sub_nat _ _ fits days_fit) in
    let later : leb_ℤ (get_cutoff_ns w now' store) start ≡ true =
      enforce_start-cutoff strategy days (get_cutoff_ns w now' store) start_ns start result
        (leb_ℤ_refl (get_cutoff_ns w now' store)) (unfold enforce in given) in
    covers_numbers row_ts now now' days e.file.max_ts start le in_file
      (ap (leb_ℤ e.file.max_ts) (sym us) ∙ e.old) (ap (λ (z : ℤ). leb_ℤ z start) (sym ns) ∙ later)
