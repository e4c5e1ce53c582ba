-- ===== src/Base/Results.antt =====
-- `Result` of the source: a value or an error.
pub data Result {ℓ ℓ'} (A : Type ℓ) (E : Type ℓ') : Type (ℓ ⊔ ℓ') where
  ok : A → Result A E
  err : E → Result A E

-- `Result<(), E>`
abbrev pub Verdict : Type 0 → Type 0
Verdict E = Result {0, 0} Unit E

-- The `?` of the source.
abbrev pub and_then {ℓ ℓ' ℓ''} :
    {A : Type ℓ} {B : Type ℓ'} {E : Type ℓ''} → Result A E → (A → Result B E) → Result B E
and_then (ok a) f = f a
and_then (err e) f = err e
