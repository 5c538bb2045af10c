-- ===== src/Dht/Krpc/Body.antt =====
-- The values that decoding gives back unchanged, and how their dictionaries are written.
use bittorrent_client_go.Base.{
  ◌≡◌, refl, FitsInt, true, false, List, [], ◌∷◌, ◌++◌, Bytes, bytes_eq, bytes_eq_refl, bytes_gt,
  All, arith,
}
use bittorrent_client_go.Bencode.{
  Value, str, int, list, dict, Items, nil, cons, Fields, end, field, get_raw,
}
use bittorrent_client_go.Dht.Krpc.{encode_string, write_entries, keys_of, encode, encode_fields}
use bittorrent_client_go.Dht.Krpc.Sort.{bytes_gt_asymm, IsRising, sort_strings-rising}

-- Every key is greater than `k`.
abbrev pub Above : Bytes → Fields → Type 0
Above k end = Unit
Above k (field j v m) = (bytes_gt j k ≡ true) × Above k m

-- Numbers fit an `int`, and dictionaries list their keys in strictly rising order.
unfoldable mutual
  pub IsCanonical : Value → Type 0
  IsCanonical (str s) = Unit
  IsCanonical (int i) = FitsInt i
  IsCanonical (list vs) = AllCanonical vs
  IsCanonical (dict m) = CanonicalFields m

  pub AllCanonical : Items → Type 0
  AllCanonical nil = Unit
  AllCanonical (cons v vs) = IsCanonical v × AllCanonical vs

  pub CanonicalFields : Fields → Type 0
  CanonicalFields end = Unit
  CanonicalFields (field k v m) = Above k m × IsCanonical v × CanonicalFields m

-- The entries of a dictionary in the order in which it lists them.
unfoldable pub body : Fields → Bytes
body end = []
body (field k v m) = encode_string k ++ (encode v ++ body m)

pub bytes_eq-of_gt : (j k : Bytes) → bytes_gt j k ≡ true → bytes_eq k j ≡ false
unfolding bytes_gt bytes_eq
bytes_eq-of_gt [] k h = cc
bytes_eq-of_gt (x ∷ xs) [] h = refl
bytes_eq-of_gt (x ∷ xs) (y ∷ ys) h = ground (arith, bytes_eq-of_gt xs ys)

Above-rising :
    (k : Bytes) (m : Fields)
    → Above k m
    → All (λ j. bytes_gt k j ≡ false) (keys_of (encode_fields m))
unfolding encode_fields
Above-rising k end a = tt
Above-rising k (field j v m) a = (bytes_gt_asymm j k a.0, Above-rising k m a.1)

keys-IsRising : (m : Fields) → CanonicalFields m → IsRising (keys_of (encode_fields m))
unfolding encode_fields CanonicalFields
keys-IsRising end c = tt
keys-IsRising (field k v m) c = (Above-rising k m c.0, keys-IsRising m c.2)

Above-ne :
    (k : Bytes) (m : Fields)
    → Above k m
    → All (λ j. bytes_eq k j ≡ false) (keys_of (encode_fields m))
unfolding encode_fields
Above-ne k end a = tt
Above-ne k (field j v m) a = (bytes_eq-of_gt j k a.0, Above-ne k m a.1)

write_entries-skip :
    (k v : Bytes) (ks : List Bytes) (es : List (Bytes × Bytes))
    → All (λ j. bytes_eq k j ≡ false) ks
    → write_entries ks ((k, v) ∷ es) ≡ write_entries ks es
unfolding write_entries get_raw
write_entries-skip k v [] es a = refl
write_entries-skip k v (j ∷ ks) es a = rw (a.0, write_entries-skip k v ks es a.1)

write_entries-body :
    (m : Fields)
    → CanonicalFields m
    → write_entries (keys_of (encode_fields m)) (encode_fields m) ≡ body m
unfolding encode_fields CanonicalFields write_entries body get_raw
write_entries-body end c = refl
write_entries-body (field k v m) c = rw (
  bytes_eq_refl k,
  write_entries-skip k (encode v) _ (encode_fields m) (Above-ne k m c.0),
  write_entries-body m c.2,
)

-- A canonical dictionary is written in the order in which it lists its entries.
pub encode-dict :
    (m : Fields) → CanonicalFields m → encode (dict m) ≡ b'd' ∷ (body m ++ (b'e' ∷ []))
unfolding encode
encode-dict m c = rw (sort_strings-rising _ (keys-IsRising m c), write_entries-body m c)
