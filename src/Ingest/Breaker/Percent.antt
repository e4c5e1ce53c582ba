-- ===== src/Ingest/Breaker/Percent.antt =====
-- circuit_breaker.rs: the percentages that the breaker compares.
use zradar.Base.{
  ℕ, ◌+◌, ◌-◌, ◌*◌, ◌/◌, ◌^◌, ◌≤◌, ◌<◌, ◌≡◌, ap, false, ltb-false, some, leb, ◌==◌, arith,
}
use native.Mathlib.Nat.{lt-div-mul-add, div-mul-le_self, div-lt_iff_lt-mul}
use zradar.Ingest.Breaker.{percent_ceil, disk_usage_from_blocks}

==-false : (d : ℕ) → 0 < d → (d == 0) ≡ false
==-false d h = ground arith

leb-false : (n : ℕ) → n < 2 ^ 64 → leb (2 ^ 64) n ≡ false
leb-false n h = ground arith

-- Of a part of a whole the percentage is the least that covers it.
pub percent_ceil_least :
    (numerator denominator : ℕ)
    → 0 < denominator
    → numerator ≤ denominator
    → (p : ℕ) × (percent_ceil numerator denominator ≡ some p)
      × (p ≤ 100)
      × (numerator * 100 ≤ p * denominator)
      × (p * denominator < numerator * 100 + denominator)
unfolding percent_ceil
percent_ceil_least n d h k =
    let x = n * 100 + (d - 1) in
    let above : x < x / d * d + d = lt-div-mul-add h in
    let below : x / d * d ≤ x = div-mul-le_self x d in
    let small : x / d < 101 = (div-lt_iff_lt-mul h).1 (omega arith) in
    (
      x / d,
      rw (==-false d h) (ap some (omega (arith, small))),
      omega (arith, small),
      omega (arith, above),
      omega (arith, below),
    )

-- With counts that `statvfs` can report, the disk usage is the least percentage that covers the used
-- part of what is used and available, and it is always known.
pub disk_usage_from_blocks_least :
    (total free available : ℕ)
    → free ≤ total
    → 0 < (total - free) + available
    → (total - free) + available < 2 ^ 64
    → (p : ℕ) × (disk_usage_from_blocks total free available ≡ some p)
      × (p ≤ 100)
      × ((total - free) * 100 ≤ p * ((total - free) + available))
      × (p * ((total - free) + available) < (total - free) * 100 + ((total - free) + available))
unfolding disk_usage_from_blocks
disk_usage_from_blocks_least total free available h some_blocks small =
    let (p, e, rest0, rest1, rest2) =
      percent_ceil_least (total - free) ((total - free) + available) some_blocks (omega arith) in
    (
      p,
      rw (ltb-false total free h, leb-false (total - free + available) small) e,
      rest0,
      rest1,
      rest2,
    )
