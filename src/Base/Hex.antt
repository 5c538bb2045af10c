-- ===== src/Base/Hex.antt =====
-- `encoding/hex`, and the ASCII part of `strings.ToLower`.
use Prim.Native.Nat.{ℕ, ◌+◌, ◌-◌, ◌*◌, ◌/◌, ◌%◌, ◌<◌}
use mathlib.Core.Path.{◌≡◌, refl}
use mathlib.Core.Bool.{true, ◌&&◌}
use mathlib.Core.Option.{Option, none, some}
use mathlib.Core.List.{[], ◌∷◌, map}
use native.Mathlib.Omega.{arith}
use bittorrent_client_go.Base.Tests.{
  if◌then◌else◌, ◌==◌, ==_iff, leb, ltb, holds_below, holds_below_sound,
}
use bittorrent_client_go.Base.Lists.{All, length}
use bittorrent_client_go.Base.Text.{Bytes}

-- A digit of a number below 16, in lower case
abbrev pub hex_digit : ℕ → ℕ
hex_digit n = if ltb n 10 then b'0' + n else b'a' + (n - 10)

-- `hex.EncodeToString`
unfoldable pub hex_encode : Bytes → Bytes
hex_encode [] = []
hex_encode (b ∷ s) = hex_digit (b / 16) ∷ hex_digit (b % 16) ∷ hex_encode s

-- The value of a digit in either case; 16 for any other byte
abbrev pub hex_value : ℕ → ℕ
hex_value c =
    if leb b'0' c && leb c b'9'
    then c - b'0'
    else if leb b'a' c && leb c b'f'
    then c - b'a' + 10
    else if leb b'A' c && leb c b'F'
    then c - b'A' + 10
    else 16

abbrev byte_of : ℕ → ℕ → Option Bytes → Option Bytes
byte_of high low none = none
byte_of high low (some s) = if ltb high 16 && ltb low 16 then some ((high * 16 + low) ∷ s) else none

-- `hex.DecodeString`
unfoldable pub hex_decode : Bytes → Option Bytes
hex_decode [] = some []
hex_decode (c ∷ []) = none
hex_decode (c ∷ d ∷ s) = byte_of (hex_value c) (hex_value d) (hex_decode s)

abbrev pub lower_byte : ℕ → ℕ
lower_byte c = if leb b'A' c && leb c b'Z' then c + 32 else c

abbrev pub upper_byte : ℕ → ℕ
upper_byte c = if leb b'a' c && leb c b'z' then c - 32 else c

unfoldable pub to_lower : Bytes → Bytes
to_lower s = map lower_byte s

unfoldable pub to_upper : Bytes → Bytes
to_upper s = map upper_byte s

digit_table : holds_below 16 (λ n. hex_value (hex_digit n) == n) ≡ true
unfolding holds_below
digit_table = refl

hex_value-hex_digit : (n : ℕ) → n < 16 → hex_value (hex_digit n) ≡ n
hex_value-hex_digit n h = (==_iff _ n).0 (holds_below_sound 16 _ n digit_table h)

pub hex_decode-hex_encode : (s : Bytes) → All (λ b. b < 256) s → hex_decode (hex_encode s) ≡ some s
unfolding hex_decode hex_encode
hex_decode-hex_encode [] h = refl
hex_decode-hex_encode (b ∷ s) h =
    rw
      (
        hex_value-hex_digit (b / 16) (omega arith),
        hex_value-hex_digit (b % 16) (omega arith),
        hex_decode-hex_encode s h.1,
      )
      (ground arith)

pub length-hex_encode : (s : Bytes) → length (hex_encode s) ≡ 2 * length s
unfolding hex_encode
length-hex_encode [] = omega arith
length-hex_encode (b ∷ s) = omega (arith, length-hex_encode s)
