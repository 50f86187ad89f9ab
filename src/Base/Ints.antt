-- ===== src/Base/Ints.antt =====
-- Go's `int` where its sign matters. `negsuc n` is -(n + 1).
use Prim.Native.Nat.{ℕ}

pub data ℤ : Type 0 where
  pos : ℕ → ℤ
  negsuc : ℕ → ℤ

-- The code's `-1`.
abbrev pub minus_one : ℤ
minus_one = negsuc 0
