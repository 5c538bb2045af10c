-- ===== src/Dht/Krpc.antt =====
-- dht/krpc.go: the bencode encoder, the queries and the response parser.
pub mod Sort
pub mod Body
pub mod Atoms
pub mod Collect
pub mod Steps
pub mod RoundTrip
pub mod Messages
mod Tests
use bittorrent_client_go.Base.{
  ℕ, ℤ, pos, Bool, true, false, Option, none, some, List, [], ◌∷◌, ◌++◌, map, Bytes, bytes_gt,
  codes, if◌then◌else◌, length, ok, err, Result, ◌>>=◌, panic,
}
use bittorrent_client_go.Bencode.Number.{print_nat, print_int}
use bittorrent_client_go.Bencode.{
  Value, str, int, list, dict, Items, nil, cons, Fields, end, field, get_raw,
}

-- The inner loop of `sortStrings`: `k` moves down past the greater strings of the sorted front,
-- which is held back to front.
unfoldable pub sift : Bytes → List Bytes → List Bytes
sift k [] = k ∷ []
sift k (p ∷ ps) = if bytes_gt p k then p ∷ sift k ps else k ∷ p ∷ ps

-- The outer loop: `front` is `s[0..i)` back to front.
unfoldable pub sort_loop : List Bytes → List Bytes → List Bytes
unfolding sift
sort_loop front [] = front
sort_loop front (k ∷ ks) = sort_loop (sift k front) ks

unfoldable pub reverse_onto : List Bytes → List Bytes → List Bytes
reverse_onto out [] = out
reverse_onto out (x ∷ xs) = reverse_onto (x ∷ out) xs

-- `sortStrings`
unfoldable pub sort_strings : List Bytes → List Bytes
unfolding sort_loop reverse_onto
sort_strings s = reverse_onto [] (sort_loop [] s)

-- `encodeBencode` at a string: `fmt.Sprintf("%d:%s", len(val), val)`
unfoldable pub encode_string : Bytes → Bytes
encode_string s = print_nat (length s) ++ (b':' ∷ s)

-- The last loop of `encodeBencode`: each key, and the encoding of `val[k]`.
unfoldable pub write_entries : List Bytes → List (Bytes × Bytes) → Bytes
write_entries [] m = []
write_entries (k ∷ ks) m = encode_string k ++ (get_raw k m ++ write_entries ks m)

abbrev pub keys_of : List (Bytes × Bytes) → List Bytes
keys_of [] = []
keys_of ((k, v) ∷ m) = k ∷ keys_of m

unfoldable mutual
  unfolding encode_string write_entries sort_strings

  -- `encodeBencode`
  pub encode : Value → Bytes
  encode (str s) = encode_string s
  encode (int i) = b'i' ∷ (print_int i ++ (b'e' ∷ []))
  encode (list vs) = b'l' ∷ (encode_items vs ++ (b'e' ∷ []))
  encode (dict m) =
      let entries = encode_fields m in
      b'd' ∷ (write_entries (sort_strings (keys_of entries)) entries ++ (b'e' ∷ []))

  pub encode_items : Items → Bytes
  encode_items nil = []
  encode_items (cons v vs) = encode v ++ encode_items vs

  -- The map with each value encoded.
  pub encode_fields : Fields → List (Bytes × Bytes)
  encode_fields end = []
  encode_fields (field k v m) = (k, encode v) ∷ encode_fields m
