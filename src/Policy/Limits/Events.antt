-- ===== src/Policy/Limits/Events.antt =====
-- enforcer.rs, `emit_thresholds`: a limit that blocks has been reported.
use zradar.Base.{
  ℕ, ◌≡◌, refl, inl, inr, Option, some, List, [], ◌∷◌, map, true, false, leb, ◌==◌, Bool-cases,
  arith, String,
}
use zradar.Base.Integers.{ℤ, pos, leb_ℤ}
use mathlib.Core.List.{Memᴰ}
use zradar.Policy.Types.{BlockCode, block, ThresholdEvent}
use zradar.Policy.Limits.{
  compare_limit_i64, ThresholdContext, insert, sort, dedup, thresholds, crosses, emit_each,
  emit_thresholds,
}

insert-Mem_head : (n : ℕ) (ns : List ℕ) → Memᴰ n (insert n ns)
unfolding insert
insert-Mem_head n [] = Memᴰ.head refl
insert-Mem_head n (k ∷ ks) = elim (Bool-cases (leb n k)) [
  | inl e ↦ rw e (Memᴰ.head refl)
  | inr e ↦ rw e (Memᴰ.tail (insert-Mem_head n ks))
]

insert-Mem : (m n : ℕ) (ns : List ℕ) → Memᴰ m ns → Memᴰ m (insert n ns)
unfolding insert
insert-Mem m n [] at = Memᴰ.tail at
insert-Mem m n (k ∷ ks) (Memᴰ.head h) = elim (Bool-cases (leb n k)) [
  | inl e ↦ rw e (Memᴰ.tail (Memᴰ.head h))
  | inr e ↦ rw e (Memᴰ.head h)
]
insert-Mem m n (k ∷ ks) (Memᴰ.tail at) = elim (Bool-cases (leb n k)) [
  | inl e ↦ rw e (Memᴰ.tail (Memᴰ.tail at))
  | inr e ↦ rw e (Memᴰ.tail (insert-Mem m n ks at))
]

sort-Mem : (m : ℕ) (ns : List ℕ) → Memᴰ m ns → Memᴰ m (sort ns)
unfolding sort
sort-Mem m [] at = at
sort-Mem m (n ∷ ns) (Memᴰ.head h) = rw h (insert-Mem_head n (sort ns))
sort-Mem m (n ∷ ns) (Memᴰ.tail at) = insert-Mem m n (sort ns) (sort-Mem m ns at)

dedup-Mem : (m : ℕ) (ns : List ℕ) → Memᴰ m ns → Memᴰ m (dedup ns)
unfolding dedup
dedup-Mem m [] at = at
dedup-Mem m (n ∷ []) at = at
dedup-Mem m (n ∷ k ∷ ks) (Memᴰ.head h) = elim (Bool-cases (n == k)) [
  | inl e ↦ let same : m ≡ k = ground arith in rw e (dedup-Mem m (k ∷ ks) (Memᴰ.head same))
  | inr e ↦ rw e (Memᴰ.head h)
]
dedup-Mem m (n ∷ k ∷ ks) (Memᴰ.tail at) = elim (Bool-cases (n == k)) [
  | inl e ↦ rw e (dedup-Mem m (k ∷ ks) at)
  | inr e ↦ rw e (Memᴰ.tail (dedup-Mem m (k ∷ ks) at))
]

thresholds-Mem : (hard : ℕ) → Memᴰ hard (thresholds hard)
unfolding thresholds
thresholds-Mem hard =
    dedup-Mem hard _ (
      sort-Mem hard (70 ∷ 90 ∷ 100 ∷ hard ∷ [])
        (Memᴰ.tail (Memᴰ.tail (Memᴰ.tail (Memᴰ.head refl)))))

emit_each-Mem :
    (ctx : ThresholdContext) (observed limit : ℤ) (period_start : Option ℤ) (pct : ℕ)
    (pcts : List ℕ)
    → crosses observed limit pct ≡ true
    → Memᴰ pct pcts
    → Memᴰ pct (
        map
          (λ (e : ThresholdEvent). e.threshold_pct)
          (emit_each ctx observed limit period_start pcts))
unfolding emit_each
emit_each-Mem ctx observed limit ps pct [] h at = elim at [ ]
emit_each-Mem ctx observed limit ps pct (p ∷ pcts) h (Memᴰ.head same) =
    let crossed : crosses observed limit p ≡ true = rw same at h in rw crossed (Memᴰ.head same)
emit_each-Mem ctx observed limit ps pct (p ∷ pcts) h (Memᴰ.tail at) =
    let later = emit_each-Mem ctx observed limit ps pct pcts h at in
    elim (Bool-cases (crosses observed limit p)) [
      | inl e ↦ rw e (Memᴰ.tail later)
      | inr e ↦ rw e later
    ]

blocks-crosses :
    (observed limit : ℤ) (grace hard : ℕ) (code : BlockCode) (reason : String)
    → leb_ℤ limit (pos 0) ≡ false
    → compare_limit_i64 observed limit grace hard code reason ≡ some (block reason code)
    → crosses observed limit hard ≡ true
unfolding compare_limit_i64 crosses
blocks-crosses observed limit grace hard code reason above h = ground arith

-- When a limit above zero blocks a request, the event of its hard percentage is among those emitted.
pub emit_thresholds_blocked :
    (ctx : ThresholdContext) (observed limit : ℤ) (period_start : Option ℤ) (grace hard : ℕ)
    (code : BlockCode) (reason : String)
    → leb_ℤ limit (pos 0) ≡ false
    → compare_limit_i64 observed limit grace hard code reason ≡ some (block reason code)
    → Memᴰ hard (
        map
          (λ (e : ThresholdEvent). e.threshold_pct)
          (emit_thresholds ctx observed limit period_start hard))
unfolding emit_thresholds
emit_thresholds_blocked ctx observed limit ps grace hard code reason above h = rw above (
    emit_each-Mem ctx observed limit ps hard (thresholds hard)
      (blocks-crosses observed limit grace hard code reason above h) (thresholds-Mem hard))
