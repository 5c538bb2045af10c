-- ===== src/Bencode/Decimal.antt =====
-- Decimal numerals: what the verb `%d` prints, `strconv.Atoi` reads back.
use bittorrent_client_go.Base.{
  ℕ, zero, suc, ◌+◌, ◌*◌, ◌/◌, ◌%◌, ◌<◌, ◌≡◌, refl, ◌∙◌, inl, inr, ℤ, pos, negsuc, negate, FitsInt,
  int_bound, true, false, some, [], ◌∷◌, ◌++◌, append_assoc, append-nil, Bytes, is_digit, ltb,
  lt→ltb, le→leb, Bool-cases, All, arith, length, length-append,
}
use bittorrent_client_go.Bencode.Number.{
  digits_value, parse_digits, in_range, atoi, print_digits, print_nat, print_int,
}

abbrev pub IsDigits : Bytes → Type 0
IsDigits = All (λ c. is_digit c ≡ true)

IsDigits-append : (s t : Bytes) → IsDigits s → IsDigits t → IsDigits (s ++ t)
IsDigits-append [] t h k = k
IsDigits-append (c ∷ s) t h k = (h.0, IsDigits-append s t h.1 k)

print_digits-IsDigits : (f n : ℕ) → IsDigits (print_digits f n)
unfolding print_digits
print_digits-IsDigits zero n = tt
print_digits-IsDigits (suc f) n = elim (Bool-cases (ltb n 10)) [
  | inl small ↦ rw small (ground arith, tt)
  | inr large ↦ rw large (
      IsDigits-append (print_digits f (n / 10)) _ (print_digits-IsDigits f (n / 10))
        (ground arith, tt))
]

pub print_nat-IsDigits : (n : ℕ) → IsDigits (print_nat n)
unfolding print_nat
print_nat-IsDigits n = print_digits-IsDigits (suc n) n

digits_value-digit :
    (acc d m : ℕ) (s : Bytes)
    → d < 10
    → acc * 10 + d ≡ m
    → digits_value acc ((b'0' + d) ∷ s) ≡ digits_value m s
unfolding digits_value
digits_value-digit acc d m s h e = ground arith

-- Reading a printed number takes the reader from zero to that number.
digits_value-print_digits :
    (f n : ℕ) (s : Bytes) → n < f → digits_value 0 (print_digits f n ++ s) ≡ digits_value n s
unfolding print_digits
digits_value-print_digits zero n s h = absurd (omega arith)
digits_value-print_digits (suc f) n s h = elim (Bool-cases (ltb n 10)) [
  | inl small ↦ rw small (digits_value-digit 0 n n s (ground arith) (omega arith))
  | inr large ↦
      rw (large, append_assoc)
        (digits_value-print_digits f (n / 10) ((b'0' + n % 10) ∷ s) (ground arith)
          ∙ digits_value-digit (n / 10) (n % 10) n s (omega arith) (omega arith))
]

digits_value-print_nat : (n : ℕ) → digits_value 0 (print_nat n) ≡ some n
unfolding print_nat digits_value
digits_value-print_nat n =
    rw (← append-nil (print_digits (suc n) n))
      (digits_value-print_digits (suc n) n [] (omega arith))

print_digits-pos : (f n : ℕ) → 0 < length (print_digits (suc f) n)
unfolding print_digits
print_digits-pos f n = elim (Bool-cases (ltb n 10)) [
  | inl small ↦ rw small (omega arith)
  | inr large ↦ rw large (omega (arith, length-append (print_digits f (n / 10))))
]

-- A numeral begins with a digit.
abbrev pub HasHead : Bytes → Type 0
HasHead s = (c : ℕ) × (t : Bytes) × (s ≡ c ∷ t) × (is_digit c ≡ true)

digits_head : (s : Bytes) → IsDigits s → 0 < length s → HasHead s
digits_head [] d h = absurd (omega arith)
digits_head (c ∷ t) d h = (c, t, refl, d.0)

pub print_nat-HasHead : (n : ℕ) → HasHead (print_nat n)
unfolding print_nat
print_nat-HasHead n =
    digits_head (print_digits (suc n) n) (print_digits-IsDigits (suc n) n) (print_digits-pos n n)

-- `Atoi` of digits alone takes neither sign.
atoi-digits :
    (s : Bytes) (c : ℕ) (t : Bytes)
    → s ≡ c ∷ t
    → is_digit c ≡ true
    → atoi s ≡ in_range false (digits_value 0 s)
unfolding atoi
atoi-digits s c t e d = rw e (ground arith)

pub atoi-print_nat : (n : ℕ) → n < int_bound → atoi (print_nat n) ≡ some (pos n)
atoi-print_nat n h =
    let (c, t, e, d) = print_nat-HasHead n in
    atoi-digits (print_nat n) c t e d ∙ rw (digits_value-print_nat n, lt→ltb n int_bound h)

parse_digits-print_nat : (n : ℕ) → parse_digits (print_nat n) ≡ some n
unfolding parse_digits
parse_digits-print_nat n =
    let (c, t, e, d) = print_nat-HasHead n in
    rw (e, parse_digits) (rw e at (digits_value-print_nat n))

-- Every `int`, printed by `%d`, is read back by `strconv.Atoi`.
pub atoi-print_int : (i : ℤ) → FitsInt i → atoi (print_int i) ≡ some i
unfolding print_int
atoi-print_int (pos n) h = atoi-print_nat n h
atoi-print_int (negsuc n) h =
    unfold atoi negate in rw (parse_digits-print_nat (suc n)) (rw (le→leb (suc n) int_bound h))
