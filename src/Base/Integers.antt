-- ===== src/Base/Integers.antt =====
-- signed integers over the native numbers
use Prim.Native.Nat.{ℕ}

-- A number, or one below the negation of a number.
pub data ℤ : Type 0 where
  pos negsuc : ℕ → ℤ
