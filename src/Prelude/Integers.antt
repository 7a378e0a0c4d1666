-- ===== src/Prelude/Integers.antt =====
-- Integers over the native numbers, as far as the program's Python integers can be negative.
use Prim.Native.Nat.{ℕ, zero, suc}

pub data ℤ : Type 0 where
  pos negsuc : ℕ → ℤ

-- `max(x, 0)`
abbrev pub clamp : ℤ → ℕ
clamp (pos n) = n
clamp (negsuc n) = 0

-- `x or y`: 0 counts as false.
abbrev pub or_int : ℤ → ℤ → ℤ
or_int (pos zero) y = y
or_int (pos (suc n)) y = pos (suc n)
or_int (negsuc n) y = negsuc n
