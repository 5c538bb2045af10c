-- ===== src/Dht/Krpc/Tests.antt =====
-- The encoder on concrete values, and the theorems at such inputs.
use mathlib.Core.List.{Perm}
use bittorrent_client_go.Base.{
  ◌≡◌, refl, pos, negsuc, List, [], ◌∷◌, ◌++◌, Bytes, codes, bytes_gt, bytes_eq, ok, arith,
}
use bittorrent_client_go.Bencode.Number.{print_nat, print_int}
use bittorrent_client_go.Bencode.{
  str, int, list, dict, nil, cons, Fields, end, field, decode_value, decode_dict, get_raw,
}
use bittorrent_client_go.Dht.Krpc.{sort_strings, encode, encode_fields}
use bittorrent_client_go.Dht.Krpc.Sort.{IsRising, sort_strings_lem}
use bittorrent_client_go.Dht.Krpc.Body.{IsCanonical}
use bittorrent_client_go.Dht.Krpc.RoundTrip.{decode_value-encode, decode_dict-encode}

-- {"a": {"id": -42}, "q": ["ping", ""]}
abbrev query : Fields
query =
    field (codes "a") (dict (field (codes "id") (int (negsuc 41)) end))
      (field (codes "q") (list (cons (str (codes "ping")) (cons (str []) nil))) end)

encode-query : encode (dict query) ≡ codes "d1:ad2:idi-42ee1:ql4:ping0:ee"
unfolding encode get_raw print_nat print_int bytes_gt bytes_eq
encode-query = refl

-- The entries are written in order of their keys, whatever order they have in the map.
encode_unsorted :
    encode (dict (field (codes "b") (int (pos 1)) (field (codes "a") (int (pos 2)) end)))
    ≡ codes "d1:ai2e1:bi1ee"
unfolding encode get_raw print_nat print_int bytes_gt bytes_eq
encode_unsorted = refl

decode_value-encode_example : decode_value (encode (dict query)) ≡ ok (dict query)
unfolding IsCanonical encode get_raw print_nat print_int bytes_gt bytes_eq
decode_value-encode_example =
    decode_value-encode (dict query) ((refl, tt), (tt, omega arith, tt), (tt, (tt, (tt, tt)), tt))
      (omega arith)

decode_dict-encode_example :
    decode_dict 40 (encode (dict query) ++ codes "raw")
    ≡ ok (record { fields = query; raw = encode_fields query }, codes "raw")
unfolding IsCanonical encode get_raw print_nat print_int bytes_gt bytes_eq
decode_dict-encode_example =
    decode_dict-encode 40 query (codes "raw")
      ((refl, tt), (tt, omega arith, tt), (tt, (tt, (tt, tt)), tt)) (omega arith) (omega arith)

abbrev keys : List Bytes
keys = codes "t" ∷ codes "y" ∷ codes "q" ∷ codes "a" ∷ []

sort_strings_lem_example : IsRising (sort_strings keys) × Perm (sort_strings keys) keys
sort_strings_lem_example = sort_strings_lem keys
