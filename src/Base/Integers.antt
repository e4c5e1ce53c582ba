-- ===== src/Base/Integers.antt =====
-- Integers over the native numbers, and the saturating arithmetic of `i64`.
use Prim.Native.Nat.{ℕ, zero, suc, ◌+◌, ◌-◌, ◌*◌, ◌/◌, ◌%◌, ◌^◌, min}
use mathlib.Core.Path.{◌≡◌, refl, ap}
use mathlib.Core.Bool.{Bool, true, false}
use native.Mathlib.Omega.{arith}
use zradar.Base.Tests.{leb, ltb, ◌==◌, if◌then◌else◌}

pub data ℤ : Type 0 where
  pos : ℕ → ℤ
  negsuc : ℕ → ℤ  -- `negsuc n` is `- (n + 1)`

-- `- n`
unfoldable pub neg : ℕ → ℤ
neg zero = pos 0
neg (suc n) = negsuc n

-- `m - n`
unfoldable pub sub_nat : ℕ → ℕ → ℤ
sub_nat m n = if leb n m then pos (m - n) else negsuc (n - m - 1)

infixl 60 ◌+ℤ◌
unfoldable pub ◌+ℤ◌ : ℤ → ℤ → ℤ
unfolding sub_nat
pos a +ℤ pos b = pos (a + b)
pos a +ℤ negsuc b = sub_nat a (suc b)
negsuc a +ℤ pos b = sub_nat b (suc a)
negsuc a +ℤ negsuc b = negsuc (suc (a + b))

infixl 70 ◌*ℤ◌
unfoldable pub ◌*ℤ◌ : ℤ → ℤ → ℤ
unfolding neg
pos a *ℤ pos b = pos (a * b)
pos a *ℤ negsuc b = neg (a * suc b)
negsuc a *ℤ pos b = neg (suc a * b)
negsuc a *ℤ negsuc b = pos (suc a * suc b)

unfoldable pub negate : ℤ → ℤ
unfolding neg
negate (pos n) = neg n
negate (negsuc n) = pos (suc n)

unfoldable pub leb_ℤ : ℤ → ℤ → Bool
leb_ℤ (pos a) (pos b) = leb a b
leb_ℤ (pos a) (negsuc b) = false
leb_ℤ (negsuc a) (pos b) = true
leb_ℤ (negsuc a) (negsuc b) = leb b a

-- The nearest `i64`.
unfoldable pub saturate : ℤ → ℤ
saturate (pos n) = pos (min n (2 ^ 63 - 1))
saturate (negsuc n) = negsuc (min n (2 ^ 63 - 1))

unfoldable pub saturating_add : ℤ → ℤ → ℤ
unfolding saturate ◌+ℤ◌
saturating_add a b = saturate (a +ℤ b)

unfoldable pub saturating_sub : ℤ → ℤ → ℤ
unfolding saturate ◌+ℤ◌ negate
saturating_sub a b = saturate (a +ℤ negate b)

unfoldable pub saturating_mul : ℤ → ℤ → ℤ
unfolding saturate ◌*ℤ◌
saturating_mul a b = saturate (a *ℤ b)

pub leb_ℤ_refl : (a : ℤ) → leb_ℤ a a ≡ true
unfolding leb_ℤ
leb_ℤ_refl (pos a) = ground arith
leb_ℤ_refl (negsuc a) = ground arith

pub leb_ℤ_trans : (a b c : ℤ) → leb_ℤ a b ≡ true → leb_ℤ b c ≡ true → leb_ℤ a c ≡ true
unfolding leb_ℤ
leb_ℤ_trans (pos a) (pos b) (pos c) h k = ground arith
leb_ℤ_trans (pos a) (pos b) (negsuc c) h k = k
leb_ℤ_trans (pos a) (negsuc b) c h k = cc
leb_ℤ_trans (negsuc a) (pos b) (negsuc c) h k = cc
leb_ℤ_trans (negsuc a) b (pos c) h k = refl
leb_ℤ_trans (negsuc a) (negsuc b) (negsuc c) h k = ground arith

pub saturate_mono : (a b : ℤ) → leb_ℤ a b ≡ true → leb_ℤ (saturate a) (saturate b) ≡ true
unfolding leb_ℤ saturate
saturate_mono (pos a) (pos b) h = ground arith
saturate_mono (pos a) (negsuc b) h = h
saturate_mono (negsuc a) (pos b) h = refl
saturate_mono (negsuc a) (negsuc b) h = ground arith

-- A product with a literal grows with its first factor.
pub mul_100_mono : (a b : ℤ) → leb_ℤ a b ≡ true → leb_ℤ (a *ℤ pos 100) (b *ℤ pos 100) ≡ true
unfolding leb_ℤ ◌*ℤ◌ neg
mul_100_mono (pos a) (pos b) h = ground arith
mul_100_mono (pos a) (negsuc b) h = cc
mul_100_mono (negsuc a) (pos b) h = ground arith
mul_100_mono (negsuc a) (negsuc b) h = ground arith

-- The `i64` that the low 64 bits stand for: arithmetic of a release build wraps.
unfoldable pub i64_of_u64 : ℕ → ℤ
i64_of_u64 n = if ltb n (2 ^ 63) then pos n else negsuc (2 ^ 64 - n - 1)

unfoldable pub wrap_i64 : ℤ → ℤ
unfolding i64_of_u64
wrap_i64 (pos n) = i64_of_u64 (n % 2 ^ 64)
wrap_i64 (negsuc n) = i64_of_u64 (2 ^ 64 - 1 - n % 2 ^ 64)

-- `/` of the source: the quotient rounded toward zero, by a positive number.
unfoldable pub quotient : ℤ → ℕ → ℤ
unfolding neg
quotient (pos n) d = pos (n / d)
quotient (negsuc n) d = neg (suc n / d)

-- `div_euclid`: the quotient rounded down, by a positive number.
unfoldable pub div_euclid : ℤ → ℕ → ℤ
div_euclid (pos n) d = pos (n / d)
div_euclid (negsuc n) d = negsuc (n / d)

unfoldable pub eq_ℤ : ℤ → ℤ → Bool
eq_ℤ (pos a) (pos b) = a == b
eq_ℤ (pos a) (negsuc b) = false
eq_ℤ (negsuc a) (pos b) = false
eq_ℤ (negsuc a) (negsuc b) = a == b

pub eq_ℤ→≡ : (a b : ℤ) → eq_ℤ a b ≡ true → a ≡ b
unfolding eq_ℤ
eq_ℤ→≡ (pos a) (pos b) h = ap pos (ground arith)
eq_ℤ→≡ (pos a) (negsuc b) h = cc
eq_ℤ→≡ (negsuc a) (pos b) h = cc
eq_ℤ→≡ (negsuc a) (negsuc b) h = ap negsuc (ground arith)
