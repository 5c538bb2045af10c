-- ===== src/Bencode/Tests.antt =====
-- Runs of the decoder on concrete inputs.
use bittorrent_client_go.Base.{◌≡◌, refl, negsuc, [], bytes_eq, codes, ok, err, panic}
use bittorrent_client_go.Base.{◌≢◌, ◌++◌, ◌∷◌, arith}
use bittorrent_client_go.Bencode.{out_of_fuel}
use bittorrent_client_go.Bencode.Progress.{decode_value-ends}
use bittorrent_client_go.Bencode.Strings.{decode_value-panic}
use bittorrent_client_go.Bencode.Number.{print_nat, atoi, print_int}
use bittorrent_client_go.Bencode.{
  str, int, list, dict, nil, cons, end, field, decode, decode_string, decode_integer, decode_value,
  bad_number,
}

decode_nested :
    decode_value (codes "d3:bar4:spam3:fooli-42e0:ee")
    ≡ ok (
        dict (
          field
            (codes "bar")
            (str (codes "spam"))
            (field (codes "foo") (list (cons (int (negsuc 41)) (cons (str []) nil))) end)))
unfolding decode_value decode decode_string decode_integer bytes_eq atoi
decode_nested = refl

decode_huge : decode_string 20 (codes "9223372036854775807:") ≡ panic
unfolding decode_string atoi
decode_huge = refl

decode_huge' : decode_string 20 (codes "9223372036854775808:") ≡ err bad_number
unfolding decode_string atoi
decode_huge' = refl

print_minus : print_int (negsuc 1233) ≡ codes "-1234"
unfolding print_int
print_minus = refl

decode_value-ends_example : decode_value (codes "lli1e") ≢ err out_of_fuel
decode_value-ends_example = decode_value-ends (codes "lli1e")

decode_value-panic_example :
    decode_value (print_nat 9223372036854775807 ++ b':' ∷ codes "spam") ≡ panic
decode_value-panic_example =
    decode_value-panic 9223372036854775807 (codes "spam") (omega arith) (omega arith)
