-- ===== src/Bencode/Strings.antt =====
-- `DecodeString` behind a run of digits, and the lengths at which it panics.
use bittorrent_client_go.Base.{
  ℕ, ◌+◌, ◌-◌, ◌≤◌, ◌<◌, ◌≡◌, refl, ap, pos, int_bound, le→leb, true, [], ◌∷◌, ◌++◌, Bytes,
  is_digit, length, length-append, ok, panic, arith,
}
use bittorrent_client_go.Bencode.Number.{print_nat}
use bittorrent_client_go.Bencode.Decimal.{
  IsDigits, print_nat-IsDigits, print_nat-HasHead, atoi-print_nat,
}
use bittorrent_client_go.Bencode.{read_length, take_string, decode_string, decode, decode_value}

pub read_length-digits : (d s : Bytes) → IsDigits d → read_length (d ++ b':' ∷ s) ≡ ok (d, s)
unfolding read_length
read_length-digits [] s h = refl
read_length-digits (c ∷ d) s h = rw (read_length-digits d s h.1) (ground (arith, h.0))

take_string-panic :
    (total n : ℕ) (s : Bytes)
    → int_bound ≤ (total - length s) + n
    → take_string total (pos n) s ≡ panic
unfolding take_string
take_string-panic total n s h = rw (le→leb int_bound _ h)

decode_string-panic :
    (total n : ℕ) (s : Bytes)
    → n < int_bound
    → int_bound ≤ (total - length s) + n
    → decode_string total (print_nat n ++ b':' ∷ s) ≡ panic
unfolding decode_string
decode_string-panic total n s h g = rw (
  read_length-digits (print_nat n) s (print_nat-IsDigits n),
  atoi-print_nat n h,
  take_string-panic total n s g,
)

decode_value-digit :
    (x : Bytes) (c : ℕ) (t : Bytes)
    → x ≡ c ∷ t
    → is_digit c ≡ true
    → decode_string (length x) x ≡ panic
    → decode_value x ≡ panic
unfolding decode_value decode
decode_value-digit [] c t e d h = cc
decode_value-digit (b ∷ x) c t e d h = let digit : is_digit b ≡ true = ground arith in rw (digit, h)

-- `Decode` panics on every text that begins with a length below 2^63 at which the position behind
-- the string, the sum of the length and of the bytes up to the colon, is 2^63 or more.
pub decode_value-panic :
    (n : ℕ) (s : Bytes)
    → n < int_bound
    → int_bound ≤ length (print_nat n) + 1 + n
    → decode_value (print_nat n ++ b':' ∷ s) ≡ panic
decode_value-panic n s h g =
    let x = print_nat n ++ b':' ∷ s in
    let (c, t, e, d) = print_nat-HasHead n in
    decode_value-digit x c (t ++ b':' ∷ s) (ap (λ y. y ++ b':' ∷ s) e) d
      (decode_string-panic (length x) n s h (omega (arith, length-append (print_nat n) (b':' ∷ s))))
