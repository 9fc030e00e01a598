-- ===== src/Prelude/Int.antt =====
-- Signed integers over the native numbers: the values of Python's `int` where the code allows
-- a negative one.
use Prim.Native.Nat.{ℕ, ◌+◌}

-- `negsuc n` is -(n + 1).
pub data ℤ : Type 0 where
  pos : ℕ → ℤ
  negsuc : ℕ → ℤ

-- `max(a, 0)`
abbrev pub pos_part : ℤ → ℕ
pos_part (pos n) = n
pos_part (negsuc n) = 0

-- The number of rounds of `for x in range(1, a + 2)`: none where `a + 1` is not positive.
abbrev pub rounds_of_succ : ℤ → ℕ
rounds_of_succ (pos n) = n + 1
rounds_of_succ (negsuc n) = 0
