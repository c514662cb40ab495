-- ===== src/Base/Int.antt =====
-- Python's integers, as far as the code uses them: positions that may be negative.
use Prim.Native.Nat.{ℕ, ◌-◌, ◌+◌, ◌≤◌, min}
use native.Mathlib.Omega.{arith}

-- `negsuc n` is -(n + 1).
pub data ℤ : Type 0 where
  pos : ℕ → ℤ
  negsuc : ℕ → ℤ

-- The place at which `list.insert(i, x)` puts `x` in a list of `n` items.
abbrev pub insert_position : ℤ → ℕ → ℕ
insert_position (pos i) n = min i n
insert_position (negsuc i) n = n - (i + 1)

pub insert_position-le : (i : ℤ) (n : ℕ) → insert_position i n ≤ n
insert_position-le (pos i) n = omega arith
insert_position-le (negsuc i) n = omega arith
