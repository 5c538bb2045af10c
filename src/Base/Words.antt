-- ===== src/Base/Words.antt =====
-- `encoding/binary` in big-endian order, and Go's unsigned words.
use Prim.Native.Nat.{ℕ, ◌+◌, ◌*◌, ◌/◌, ◌%◌, ◌^◌, ◌<◌}
use mathlib.Core.Path.{◌≡◌}
use mathlib.Core.List.{List, [], ◌∷◌}
use native.Mathlib.Omega.{arith}

abbrev pub u32_mod : ℕ
u32_mod = 2 ^ 32

-- `binary.BigEndian.PutUint32`, of the low 32 bits
abbrev pub put_u32 : ℕ → List ℕ
put_u32 n = (n / 2 ^ 24 % 256) ∷ (n / 2 ^ 16 % 256) ∷ (n / 2 ^ 8 % 256) ∷ (n % 256) ∷ []

-- `binary.BigEndian.Uint32`
abbrev pub u32_of : ℕ → ℕ → ℕ → ℕ → ℕ
u32_of a b c d = a * 2 ^ 24 + b * 2 ^ 16 + c * 2 ^ 8 + d

-- `binary.BigEndian.Uint16`
abbrev pub u16_of : ℕ → ℕ → ℕ
u16_of a b = a * 256 + b

pub u32_of-put_u32 :
    (n : ℕ)
    → n < u32_mod
    → u32_of (n / 2 ^ 24 % 256) (n / 2 ^ 16 % 256) (n / 2 ^ 8 % 256) (n % 256) ≡ n
u32_of-put_u32 n h = omega arith
