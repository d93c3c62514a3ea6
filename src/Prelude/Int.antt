-- ===== src/Prelude/Int.antt =====
-- C integers that may be negative: `int` results and file descriptors.
use Prim.Native.Nat.{ℕ}
use mathlib.Core.Bool.{Bool, true, false}

-- `negsuc n` is -(n + 1).
pub data ℤ : Type 0 where
  pos : ℕ → ℤ
  negsuc : ℕ → ℤ

abbrev pub is_negative : ℤ → Bool
is_negative (pos n) = false
is_negative (negsuc n) = true

abbrev pub is_zero : ℤ → Bool
is_zero (pos n) = elim n [ ℕ.zero ↦ true | ℕ.suc m ↦ false ]
is_zero (negsuc n) = false
