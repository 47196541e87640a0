-- ===== src/Common/Ints.antt =====
-- The C `int`s that calls answer, over the native numbers.
use Prim.Native.Nat.{ℕ}

-- `negsuc n` is -n-1.
pub data ℤ : Type 0 where
  pos : ℕ → ℤ
  negsuc : ℕ → ℤ
