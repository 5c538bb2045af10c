-- ===== src/Dht/Krpc/Atoms.antt =====
-- Strings and integers: what `encodeBencode` writes, the decoder reads back.
use bittorrent_client_go.Base.{
  ℕ, suc, ◌≤◌, ◌<◌, ◌≡◌, ◌≢◌, refl, ap, ℤ, pos, negsuc, FitsInt, int_bound, [], ◌∷◌, ◌++◌,
  append_assoc, Bytes, length, length-append, take-append, drop-append, All, ok, arith,
}
use bittorrent_client_go.Bencode.Number.{print_nat, print_int}
use bittorrent_client_go.Bencode.Decimal.{
  IsDigits, print_nat-IsDigits, atoi-print_nat, atoi-print_int,
}
use bittorrent_client_go.Bencode.{take_string, decode_string, read_integer, decode_integer}
use bittorrent_client_go.Bencode.Strings.{read_length-digits}
use bittorrent_client_go.Dht.Krpc.{encode_string}

take_string-append :
    (total : ℕ) (k s : Bytes)
    → length (k ++ s) ≤ total
    → total < int_bound
    → take_string total (pos (length k)) (k ++ s) ≡ ok (k, s)
unfolding take_string
take_string-append total k s h b =
    rw (take-append k s, drop-append k s) (ground (arith, length-append k s))

pub encode_string-append :
    (k s : Bytes) → encode_string k ++ s ≡ print_nat (length k) ++ (b':' ∷ (k ++ s))
unfolding encode_string
encode_string-append k s = append_assoc (print_nat (length k)) (b':' ∷ k) s

-- The encoding of a string is longer than the string.
pub length-encode_string : (k s : Bytes) → length (k ++ s) < length (encode_string k ++ s)
length-encode_string k s = omega (
  arith,
  ap length (encode_string-append k s),
  length-append (print_nat (length k)) (b':' ∷ (k ++ s)),
)

decode_string-fits :
    (total : ℕ) (k s : Bytes)
    → length (k ++ s) ≤ total
    → total < int_bound
    → length k < int_bound
    → decode_string total (encode_string k ++ s) ≡ ok (k, s)
unfolding decode_string
decode_string-fits total k s h b f =
    rw
      (
        encode_string-append k s,
        read_length-digits (print_nat (length k)) (k ++ s) (print_nat-IsDigits (length k)),
        atoi-print_nat (length k) f,
      )
      (take_string-append total k s h b)

-- A string is read back, and what follows it is left.
pub decode_string-encode_string :
    (total : ℕ) (k s : Bytes)
    → length (encode_string k ++ s) ≤ total
    → total < int_bound
    → decode_string total (encode_string k ++ s) ≡ ok (k, s)
decode_string-encode_string total k s h b =
    decode_string-fits total k s (omega (arith, length-encode_string k s)) b
      (omega (arith, length-encode_string k s, length-append k s))

digits_no_e : (d : Bytes) → IsDigits d → All (λ c. c ≢ b'e') d
digits_no_e [] h = tt
digits_no_e (c ∷ d) h = (ground (arith, h.0), digits_no_e d h.1)

read_integer-until :
    (d s : Bytes) → All (λ c. c ≢ b'e') d → read_integer (d ++ b'e' ∷ s) ≡ ok (d, s)
unfolding read_integer
read_integer-until [] s h = refl
read_integer-until (c ∷ d) s h = rw (read_integer-until d s h.1) (ground (arith, h.0))

print_int-no_e : (i : ℤ) → All (λ c. c ≢ b'e') (print_int i)
unfolding print_int
print_int-no_e (pos n) = digits_no_e _ (print_nat-IsDigits n)
print_int-no_e (negsuc n) = (ground arith, digits_no_e _ (print_nat-IsDigits (suc n)))

pub decode_integer-print_int :
    (i : ℤ) (s : Bytes) → FitsInt i → decode_integer (b'i' ∷ (print_int i ++ b'e' ∷ s)) ≡ ok (i, s)
unfolding decode_integer
decode_integer-print_int i s h =
    rw (read_integer-until (print_int i) s (print_int-no_e i)) (rw (atoi-print_int i h))
