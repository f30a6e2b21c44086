-- ===== src/Prelude/Integers.antt =====
-- Python's `int`, where the program tests its sign.
use Prim.Native.Nat.{ℕ}

-- `negsuc n` is -(n + 1).
pub data ℤ : Type 0 where
  pos : ℕ → ℤ
  negsuc : ℕ → ℤ
