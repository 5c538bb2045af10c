-- ===== src/Dht/Krpc/RoundTrip.antt =====
-- What `encodeBencode` writes, `bencode.Decode` reads back.
use bittorrent_client_go.Base.{
  ℕ, zero, suc, ◌+◌, ◌-◌, ◌*◌, ◌≤◌, ◌<◌, ◌≡◌, refl, ap, ◌∙◌, int_bound, [], ◌∷◌, ◌++◌, append_assoc,
  append-nil, Bytes, length, length-append, take-append, ok, arith,
}
use mathlib.Core.Path.{subst}
use bittorrent_client_go.Bencode.{
  Value, str, int, list, dict, Items, nil, cons, Fields, end, field, append_item, put, put_raw,
  Dict, store, decode, decode_items, decode_fields, decode_dict, decode_value, fuel_for,
}
use bittorrent_client_go.Dht.Krpc.{encode_string, encode, encode_items, encode_fields}
use bittorrent_client_go.Dht.Krpc.Atoms.{length-encode_string, decode_string-encode_string}
use bittorrent_client_go.Dht.Krpc.Body.{
  IsCanonical, AllCanonical, CanonicalFields, body, encode-dict,
}
use bittorrent_client_go.Dht.Krpc.Collect.{empty_dict, store_all, store_all_lem}
use bittorrent_client_go.Dht.Krpc.Steps.{
  decode_items-end, decode_fields-end, encode-StartsItem, encode_string-StartsDigit, decode-digit,
  decode-encode_int, decode_items-step, decode_fields-step, decode-list, decode-dict, length-encode,
}

abbrev join : Items → Items → Items
join nil ws = ws
join (cons v vs) ws = cons v (join vs ws)

join-append_item :
    (vs : Items) (v : Value) (ws : Items) → join (append_item vs v) ws ≡ join vs (cons v ws)
unfolding append_item
join-append_item nil v ws = refl
join-append_item (cons w vs) v ws = ap (cons w) (join-append_item vs v ws)

join-nil : (vs : Items) → join vs nil ≡ vs
join-nil nil = refl
join-nil (cons v vs) = ap (cons v) (join-nil vs)

-- The raw bytes of a value are the bytes that were read.
store-encode :
    (k : Bytes) (v : Value) (t : Bytes) (acc : Dict)
    → store k v (encode v ++ t) t acc
      ≡ record { fields = put k v acc.fields; raw = put_raw k (encode v) acc.raw }
unfolding store
store-encode k v t acc =
    let e : length (encode v ++ t) - length t ≡ length (encode v) =
      omega (arith, length-append (encode v) t) in
    rw (e, take-append (encode v) t)

length-encode_list :
    (vs : Items) (s : Bytes)
    → length (encode (list vs) ++ s) ≡ suc (length (encode_items vs ++ (b'e' ∷ s)))
unfolding encode
length-encode_list vs s = rw (append_assoc (encode_items vs) (b'e' ∷ []) s)

-- An item takes at least one byte of the list that it heads.
length-cons :
    (v : Value) (vs : Items) (s : Bytes)
    → let x = encode_items vs ++ (b'e' ∷ s) in
      (length x < length (encode v ++ x))
      × (length (encode_items (cons v vs) ++ (b'e' ∷ s)) ≡ length (encode v ++ x))
unfolding encode_items
length-cons v vs s =
    let x = encode_items vs ++ (b'e' ∷ s) in
    (
      omega (arith, length-encode v, length-append (encode v) x),
      ap length (append_assoc (encode v) (encode_items vs) (b'e' ∷ s)),
    )

body-append :
    (k : Bytes) (v : Value) (m : Fields) (x : Bytes)
    → body (field k v m) ++ x ≡ encode_string k ++ (encode v ++ (body m ++ x))
unfolding body
body-append k v m x =
    append_assoc (encode_string k) (encode v ++ body m) x
    ∙ ap (◌++◌ (encode_string k)) (append_assoc (encode v) (body m) x)

length-body :
    (k : Bytes) (v : Value) (m : Fields) (s : Bytes)
    → let x = body m ++ (b'e' ∷ s) in
      (length x < length (encode v ++ x))
      × (length (encode v ++ x) < length (encode_string k ++ (encode v ++ x)))
      × (length (body (field k v m) ++ (b'e' ∷ s)) ≡ length (encode_string k ++ (encode v ++ x)))
length-body k v m s =
    let x = body m ++ (b'e' ∷ s) in
    (
      omega (arith, length-encode v, length-append (encode v) x),
      omega (arith, length-encode_string k (encode v ++ x), length-append k (encode v ++ x)),
      ap length (body-append k v m (b'e' ∷ s)),
    )

pub length-encode_dict :
    (m : Fields) (s : Bytes)
    → CanonicalFields m
    → length (encode (dict m) ++ s) ≡ suc (length (body m ++ (b'e' ∷ s)))
length-encode_dict m s c = rw (encode-dict m c, append_assoc (body m) (b'e' ∷ []) s)

decode-encode_dict :
    (f total : ℕ) (m : Fields) (s : Bytes)
    → CanonicalFields m
    → decode_fields f total empty_dict (body m ++ (b'e' ∷ s)) ≡ ok (store_all empty_dict m, s)
    → decode (suc f) total (encode (dict m) ++ s) ≡ ok (dict m, s)
decode-encode_dict f total m s c e =
    rw (encode-dict m c, append_assoc (body m) (b'e' ∷ []) s)
      (decode-dict f total (store_all empty_dict m) (body m ++ b'e' ∷ s) s e
        ∙ ap (λ d. ok (dict (Dict.fields d), s)) (store_all_lem m c))

mutual
  unfolding IsCanonical encode_items body store_all

  decode-encode_fuel :
      (f total : ℕ) (v : Value) (s : Bytes)
      → IsCanonical v
      → 2 * length (encode v ++ s) < f
      → length (encode v ++ s) ≤ total
      → total < int_bound
      → decode f total (encode v ++ s) ≡ ok (v, s)
  decode-encode_fuel zero total (str k) s c h g b = elim h [ ]
  decode-encode_fuel zero total (int i) s c h g b = elim h [ ]
  decode-encode_fuel zero total (list vs) s c h g b = elim h [ ]
  decode-encode_fuel zero total (dict m) s c h g b = elim h [ ]
  decode-encode_fuel (suc f) total (str k) s c h g b =
      decode-digit f total k _ s (encode_string-StartsDigit k s)
        (decode_string-encode_string total k s g b)
  decode-encode_fuel (suc f) total (int i) s c h g b = decode-encode_int f total i s c
  decode-encode_fuel (suc f) total (list vs) s c h g b =
      rw (append_assoc (encode_items vs) (b'e' ∷ []) s) (
        decode-list f total vs _ s (
          decode-encode_items f total nil vs s c (omega (arith, length-encode_list vs s))
            (omega (arith, length-encode_list vs s)) b))
  decode-encode_fuel (suc f) total (dict m) s c h g b = decode-encode_dict f total m s c (
      decode-body f total empty_dict m s c (omega (arith, length-encode_dict m s c))
        (omega (arith, length-encode_dict m s c)) b)

  decode-encode_items :
      (f total : ℕ) (acc vs : Items) (s : Bytes)
      → AllCanonical vs
      → 2 * length (encode_items vs ++ (b'e' ∷ s)) + 1 < f
      → length (encode_items vs ++ (b'e' ∷ s)) ≤ total
      → total < int_bound
      → decode_items f total acc (encode_items vs ++ (b'e' ∷ s)) ≡ ok (join acc vs, s)
  decode-encode_items zero total acc nil s c h g b = elim h [ ]
  decode-encode_items zero total acc (cons v vs) s c h g b = elim h [ ]
  decode-encode_items (suc f) total acc nil s c h g b =
      rw (join-nil acc) (decode_items-end f total acc s)
  decode-encode_items (suc f) total acc (cons v vs) s c h g b =
      let x = encode_items vs ++ (b'e' ∷ s) in
      rw (append_assoc (encode v) (encode_items vs) (b'e' ∷ s)) (
        decode_items-step f total acc v (encode v ++ x) x (encode-StartsItem v x) (
          decode-encode_fuel f total v x c.0 (omega (arith, length-cons v vs s))
            (omega (arith, length-cons v vs s)) b)
        ∙ decode-encode_items f total (append_item acc v) vs s c.1
            (omega (arith, length-cons v vs s)) (omega (arith, length-cons v vs s)) b
        ∙ ap (λ ws. ok (ws, s)) (join-append_item acc v vs))

  decode-body :
      (f total : ℕ) (acc : Dict) (m : Fields) (s : Bytes)
      → CanonicalFields m
      → 2 * length (body m ++ (b'e' ∷ s)) + 1 < f
      → length (body m ++ (b'e' ∷ s)) ≤ total
      → total < int_bound
      → decode_fields f total acc (body m ++ (b'e' ∷ s)) ≡ ok (store_all acc m, s)
  decode-body zero total acc end s c h g b = elim h [ ]
  decode-body zero total acc (field k v m) s c h g b = elim h [ ]
  decode-body (suc f) total acc end s c h g b = decode_fields-end f total acc s
  decode-body (suc f) total acc (field k v m) s c h g b =
      let x = body m ++ (b'e' ∷ s) in
      rw (body-append k v m (b'e' ∷ s)) (
        decode_fields-step f total acc k v (encode_string k ++ (encode v ++ x)) (encode v ++ x) x
          (encode_string-StartsDigit k (encode v ++ x))
          (decode_string-encode_string total k (encode v ++ x) (omega (arith, length-body k v m s))
            b)
          (decode-encode_fuel f total v x c.1 (omega (arith, length-body k v m s))
            (omega (arith, length-body k v m s)) b)
        ∙ ap (λ acc. decode_fields f total acc x) (store-encode k v x acc)
        ∙ decode-body f total _ m s c.2 (omega (arith, length-body k v m s))
            (omega (arith, length-body k v m s)) b)

decode_value-nonempty :
    (x : Bytes) (v : Value)
    → 0 < length x
    → decode (fuel_for x) (length x) x ≡ ok (v, [])
    → decode_value x ≡ ok v
unfolding decode_value
decode_value-nonempty [] v h e = absurd (omega arith)
decode_value-nonempty (c ∷ cs) v h e = rw e

-- Decoding what `encodeBencode` writes gives the value back, for every value with integers that fit
-- an `int` and dictionaries listed in strictly rising order of keys, if the text is shorter than
-- 2^63 bytes.
pub decode_value-encode :
    (v : Value) → IsCanonical v → length (encode v) < int_bound → decode_value (encode v) ≡ ok v
decode_value-encode v c b = decode_value-nonempty (encode v) v (length-encode v) (
    subst (λ x. decode (fuel_for x) (length x) x ≡ ok (v, [])) (append-nil (encode v))
      (decode-encode_fuel (fuel_for (encode v ++ [])) (length (encode v ++ [])) v [] c (omega arith)
        (omega arith) (omega (arith, ap length (append-nil (encode v))))))

-- `DecodeDict` on the encoding of a dictionary, whatever follows, gives its entries, for each key the
-- bytes of its encoded value as the raw value, and the rest, if at every level the keys are listed in
-- strictly rising order and the integers fit an `int`, and if the input is shorter than 2^63 bytes.
pub decode_dict-encode :
    (total : ℕ) (m : Fields) (s : Bytes)
    → CanonicalFields m
    → length (encode (dict m) ++ s) ≤ total
    → total < int_bound
    → decode_dict total (encode (dict m) ++ s)
      ≡ ok (record { fields = m; raw = encode_fields m }, s)
unfolding decode_dict
decode_dict-encode total m s c h b =
    let e = length-encode_dict m s c in
    rw (encode-dict m c, append_assoc (body m) (b'e' ∷ []) s)
      (decode-body (suc (2 * suc (length (body m ++ b'e' ∷ s)) + 1)) total empty_dict m s c
          (omega arith) (omega (arith, e)) b
        ∙ ap (λ d. ok (d, s)) (store_all_lem m c))
