-- ===== src/Base/Int.antt =====
-- Signed integers over the native numbers, as far as a nesting depth needs them.
use Prim.Native.Nat.{ℕ, zero, suc}
use mathlib.Core.Path.{◌≡◌, refl}
use mathlib.Core.Bool.{Bool, true, false}

-- `negsuc n` is -(n + 1).
pub data ℤ : Type 0 where
  pos : ℕ → ℤ
  negsuc : ℕ → ℤ

abbrev pub suc_ℤ : ℤ → ℤ
suc_ℤ (pos n) = pos (suc n)
suc_ℤ (negsuc zero) = pos zero
suc_ℤ (negsuc (suc n)) = negsuc n

abbrev pub pred_ℤ : ℤ → ℤ
pred_ℤ (pos zero) = negsuc zero
pred_ℤ (pos (suc n)) = pos n
pred_ℤ (negsuc n) = negsuc (suc n)

abbrev pub is_zero : ℤ → Bool
is_zero (pos zero) = true
is_zero (pos (suc n)) = false
is_zero (negsuc n) = false

pub pred_ℤ-suc_ℤ : (a : ℤ) → pred_ℤ (suc_ℤ a) ≡ a
pred_ℤ-suc_ℤ (pos n) = refl
pred_ℤ-suc_ℤ (negsuc zero) = refl
pred_ℤ-suc_ℤ (negsuc (suc n)) = refl
