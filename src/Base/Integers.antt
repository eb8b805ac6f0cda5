-- ===== src/Base/Integers.antt =====
-- The integers, where the program may meet a negative one.
use Prim.Native.Nat.{ℕ}

pub data ℤ : Type 0 where
  pos negsuc : ℕ → ℤ
