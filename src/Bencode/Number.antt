-- ===== src/Bencode/Number.antt =====
-- `strconv.Atoi` and the `%d` verb, as bencode/decode.go, dht/krpc.go and their callers use them.
use bittorrent_client_go.Base.{
  ℕ, zero, suc, ◌+◌, ◌-◌, ◌*◌, ◌/◌, ◌%◌, ℤ, pos, negsuc, negate, int_bound, Bool, true, false,
  Option, none, some, [], ◌∷◌, ◌++◌, Bytes, is_digit, ltb, leb, ◌==◌, if◌then◌else◌,
}

-- The value of a string of digits after those read so far; `none` at any other byte.
unfoldable pub digits_value : ℕ → Bytes → Option ℕ
digits_value acc [] = some acc
digits_value acc (c ∷ cs) =
    let rest = digits_value (acc * 10 + (c - b'0')) cs in if is_digit c then rest else none

-- An empty string of digits is a syntax error.
unfoldable pub parse_digits : Bytes → Option ℕ
parse_digits [] = none
parse_digits (c ∷ cs) = digits_value 0 (c ∷ cs)

-- The range of a 64-bit `int`.
abbrev pub in_range : Bool → Option ℕ → Option ℤ
in_range negative none = none
in_range true (some n) = if leb n int_bound then some (negate n) else none
in_range false (some n) = if ltb n int_bound then some (pos n) else none

-- `strconv.Atoi`: an optional sign, at least one digit, and a value that an `int` can hold.
unfoldable pub atoi : Bytes → Option ℤ
unfolding parse_digits digits_value negate
atoi [] = none
atoi (c ∷ cs) =
    if c == b'-'
    then in_range true (parse_digits cs)
    else if c == b'+'
    then in_range false (parse_digits cs)
    else in_range false (parse_digits (c ∷ cs))

-- The decimal digits of `n`, for which `n + 1` rounds are enough.
unfoldable pub print_digits : ℕ → ℕ → Bytes
print_digits zero n = []
print_digits (suc f) n =
    let front = print_digits f (n / 10) in
    if ltb n 10 then (b'0' + n) ∷ [] else front ++ (b'0' + n % 10) ∷ []

unfoldable pub print_nat : ℕ → Bytes
unfolding print_digits
print_nat n = print_digits (suc n) n

-- `fmt.Sprintf("%d", i)`
unfoldable pub print_int : ℤ → Bytes
unfolding print_nat
print_int (pos n) = print_nat n
print_int (negsuc n) = b'-' ∷ print_nat (suc n)
