-- ===== src/Base/Int.antt =====
-- Go's signed `int`, as a mathematical integer with its range stated where it matters.
use Prim.Native.Nat.{ℕ, zero, suc, ◌^◌, ◌<◌}

-- `negsuc n` is -(n + 1).
pub data ℤ : Type 0 where
  pos : ℕ → ℤ
  negsuc : ℕ → ℤ

-- -n
unfoldable pub negate : ℕ → ℤ
negate zero = pos 0
negate (suc n) = negsuc n

-- One more than the largest `int`.
abbrev pub int_bound : ℕ
int_bound = 2 ^ 63

-- The values that a 64-bit `int` can hold.
abbrev pub FitsInt : ℤ → Type 0
FitsInt (pos n) = n < int_bound
FitsInt (negsuc n) = n < int_bound
