-- ===== src/Base/Bytes.antt =====
-- Byte strings as lists of numbers, and the big-endian integers of the `bytes` crate's
-- `put_u32`/`get_u32` family.
use native.Mathlib.Nat.{pow-suc}
use zradar.Base.Tests.{◌==◌}
use zradar.Base.Lists.{length, length-append}
use Prim.Native.Nat.{ℕ, zero, suc, ◌+◌, ◌*◌, ◌/◌, ◌%◌, ◌^◌, ◌<◌}
use mathlib.Core.Path.{◌≡◌, refl, ◌∙◌}
use mathlib.Core.Bool.{Bool, true, false, ◌&&◌}
use mathlib.Core.List.{List, [], ◌∷◌, ◌++◌}
use native.Mathlib.Omega.{arith}

abbrev pub Bytes : Type 0
Bytes = List ℕ

-- The `w` low bytes of `x`, the most significant first: `put_u8/u32/u64` at w = 1, 4, 8. What does
-- not fit is dropped, as the source's `as u32` does.
unfoldable pub to_be : ℕ → ℕ → Bytes
to_be zero x = []
to_be (suc w) x = to_be w (x / 256) ++ (x % 256) ∷ []

unfoldable pub from_be : ℕ → Bytes → ℕ
from_be acc [] = acc
from_be acc (b ∷ bs) = from_be (acc * 256 + b) bs

-- `a == b` on byte slices.
unfoldable pub bytes_eq : Bytes → Bytes → Bool
bytes_eq [] [] = true
bytes_eq [] (y ∷ ys) = false
bytes_eq (x ∷ xs) [] = false
bytes_eq (x ∷ xs) (y ∷ ys) = x == y && bytes_eq xs ys

pub length-to_be : (w x : ℕ) → length (to_be w x) ≡ w
unfolding to_be
length-to_be zero x = refl
length-to_be (suc w) x =
    omega (arith, length-append (to_be w (x / 256)) ((x % 256) ∷ []), length-to_be w (x / 256))

from_be-append :
    (acc : ℕ) (xs : Bytes) (b : ℕ) → from_be acc (xs ++ b ∷ []) ≡ from_be acc xs * 256 + b
unfolding from_be
from_be-append acc [] b = refl
from_be-append acc (x ∷ xs) b = from_be-append (acc * 256 + x) xs b

-- A number that fits in `w` bytes is read back.
pub from_be-to_be : (w x : ℕ) → x < 256 ^ w → from_be 0 (to_be w x) ≡ x
unfolding to_be from_be
from_be-to_be zero x h = omega arith
from_be-to_be (suc w) x h =
    from_be-append 0 (to_be w (x / 256)) (x % 256)
    ∙ omega (arith, from_be-to_be w (x / 256) (omega (arith, pow-suc 256 w)))

pub bytes_eq_refl : (xs : Bytes) → bytes_eq xs xs ≡ true
unfolding bytes_eq
bytes_eq_refl [] = refl
bytes_eq_refl (x ∷ xs) = ground (arith, bytes_eq_refl xs)

pub bytes_eq→≡ : (xs ys : Bytes) → bytes_eq xs ys ≡ true → xs ≡ ys
unfolding bytes_eq
bytes_eq→≡ [] [] h = refl
bytes_eq→≡ [] (y ∷ ys) h = cc
bytes_eq→≡ (x ∷ xs) [] h = cc
bytes_eq→≡ (x ∷ xs) (y ∷ ys) h = ground (arith, bytes_eq→≡ xs ys)
