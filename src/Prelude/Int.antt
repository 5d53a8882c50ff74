-- ===== src/Prelude/Int.antt =====
-- The C `int` where a value can be negative: `negsuc n` is -(n + 1).
use Prim.Native.Nat.{ℕ}

pub data ℤ : Type 0 where
  pos : ℕ → ℤ
  negsuc : ℕ → ℤ

-- what a function returns for "not found" or an error
abbrev pub minus_one : ℤ
minus_one = negsuc 0
