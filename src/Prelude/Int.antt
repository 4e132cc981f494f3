-- ===== src/Prelude/Int.antt =====
-- Signed integers over the native numbers, under the library's names.
use getbiblesword.Prelude.{ℕ, Bool, false, ◌==◌}

-- `negsuc n` is -(n + 1).
pub data ℤ : Type 0 where
  pos : ℕ → ℤ
  negsuc : ℕ → ℤ

abbrev pub eq_int : ℤ → ℤ → Bool
eq_int (pos m) (pos n) = m == n
eq_int (negsuc m) (negsuc n) = m == n
eq_int (pos m) (negsuc n) = false
eq_int (negsuc m) (pos n) = false

abbrev pub is_zero : ℤ → Bool
is_zero a = eq_int a (pos 0)
