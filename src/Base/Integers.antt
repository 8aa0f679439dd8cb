-- ===== src/Base/Integers.antt =====
-- Signed numbers, as far as the program passes them on.
use Prim.Native.Nat.{ℕ}

pub data ℤ : Type 0 where
  pos negsuc : ℕ → ℤ
