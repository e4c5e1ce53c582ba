-- ===== src/Base/Members.antt =====
-- Membership in a list that is put together from two.
use mathlib.Core.Path.{◌≡◌}
use mathlib.Core.Logic.{◌⊎◌, inl, inr}
use mathlib.Core.List.{List, [], ◌∷◌, ◌++◌, Memᴰ}

module _ {A : Type 0} where
  pub Mem_cons : (a x : A) (xs : List A) → Memᴰ a (x ∷ xs) → (a ≡ x) ⊎ Memᴰ a xs
  Mem_cons a x xs (Memᴰ.head e) = inl e
  Mem_cons a x xs (Memᴰ.tail at) = inr at

  pub Mem-append_left : (a : A) (xs ys : List A) → Memᴰ a xs → Memᴰ a (xs ++ ys)
  Mem-append_left a [] ys at = elim at [ ]
  Mem-append_left a (x ∷ xs) ys (Memᴰ.head e) = Memᴰ.head e
  Mem-append_left a (x ∷ xs) ys (Memᴰ.tail at) = Memᴰ.tail (Mem-append_left a xs ys at)

  pub Mem-append_right : (a : A) (xs ys : List A) → Memᴰ a ys → Memᴰ a (xs ++ ys)
  Mem-append_right a [] ys at = at
  Mem-append_right a (x ∷ xs) ys at = Memᴰ.tail (Mem-append_right a xs ys at)

  pub Mem-append_split : (a : A) (xs ys : List A) → Memᴰ a (xs ++ ys) → Memᴰ a xs ⊎ Memᴰ a ys
  Mem-append_split a [] ys at = inr at
  Mem-append_split a (x ∷ xs) ys (Memᴰ.head e) = inl (Memᴰ.head e)
  Mem-append_split a (x ∷ xs) ys (Memᴰ.tail at) = elim (Mem-append_split a xs ys at) [
    | inl left ↦ inl (Memᴰ.tail left)
    | inr right ↦ inr right
  ]
