-- ===== src/Bencode.antt =====
-- bencode/decode.go: the decoder, and the values that it makes.
-- The `pos *int` of the source is the suffix of the input that starts there, beside the length
-- `total` of the whole input: `*pos` is `total - length s`, and `*pos >= len(input)` is `s = []`.
pub mod Number
pub mod Decimal
pub mod Progress
pub mod Strings
pub mod Assert
mod Tests
use bittorrent_client_go.Base.{
  ℕ, zero, suc, ◌+◌, ◌-◌, ◌*◌, ℤ, pos, negsuc, int_bound, Bool, true, false, not, Option, none,
  some, List, [], ◌∷◌, ◌++◌, Bytes, bytes_eq, is_digit, ltb, leb, ◌==◌, if◌then◌else◌, length, take,
  drop, Result, ok, err, panic, ◌>>=◌,
}
use Number.{atoi}

-- What `interface{}` holds after decoding.
mutual
  pub data Value : Type 0 where
    str : Bytes → Value
    int : ℤ → Value
    list : Items → Value
    dict : Fields → Value

  pub data Items : Type 0 where
    nil : Items
    cons : Value → Items → Items

  -- A `map[string]interface{}` as an association list.
  pub data Fields : Type 0 where
    end : Fields
    field : Bytes → Value → Fields → Fields

-- The errors that the decoder returns; `out_of_fuel` is the model's own and is never returned.
pub data Error : Type 0 where
  bad_length missing_colon bad_number too_long bad_integer : Error
  missing_end bad_key unexpected_end unsupported empty_input : Error
  out_of_fuel : Error

-- `append(result, value)`
unfoldable pub append_item : Items → Value → Items
append_item nil v = cons v nil
append_item (cons w ws) v = cons w (append_item ws v)

-- `result[key] = value`
unfoldable pub put : Bytes → Value → Fields → Fields
put k v end = field k v end
put k v (field j w m) = if bytes_eq j k then field j v m else field j w (put k v m)

-- `m[key]`, with `none` for a missing key
unfoldable pub get : Bytes → Fields → Option Value
get k end = none
get k (field j w m) = if bytes_eq j k then some w else get k m

-- `rawValues[key] = raw`
unfoldable pub put_raw : Bytes → Bytes → List (Bytes × Bytes) → List (Bytes × Bytes)
put_raw k v [] = (k, v) ∷ []
put_raw k v ((j, w) ∷ m) = if bytes_eq j k then (j, v) ∷ m else (j, w) ∷ put_raw k v m

-- `rawValues[key]`: the zero value, an empty string, for a missing key
unfoldable pub get_raw : Bytes → List (Bytes × Bytes) → Bytes
get_raw k [] = []
get_raw k ((j, w) ∷ m) = if bytes_eq j k then w else get_raw k m

abbrev parsed_int : Option ℤ → Result Error ℤ
parsed_int none = err bad_number
parsed_int (some i) = ok i

abbrev with_byte : ℕ → Result Error (Bytes × Bytes) → Result Error (Bytes × Bytes)
with_byte c (ok (digits, s)) = ok (c ∷ digits, s)
with_byte c (err e) = err e
with_byte c panic = panic

-- The first loop of `DecodeString`: the bytes before the colon, and the suffix after it.
unfoldable pub read_length : Bytes → Result Error (Bytes × Bytes)
read_length [] = err missing_colon
read_length (c ∷ cs) =
    let rest = with_byte c (read_length cs) in
    if c == b':' then ok ([], cs) else if not (is_digit c) then err bad_length else rest

-- `input[*pos : *pos+length]` behind its check. Where `*pos+length` is 2^63 or more the sum wraps to
-- a negative number, so the check passes and the slice expression panics; it also panics where
-- `length` is negative.
unfoldable pub take_string : ℕ → ℤ → Bytes → Result Error (Bytes × Bytes)
take_string total (negsuc n) s = panic
take_string total (pos n) s =
    if leb int_bound ((total - length s) + n)
    then panic
    else if ltb (length s) n
    then err too_long
    else ok (take n s, drop n s)

unfoldable pub decode_string : ℕ → Bytes → Result Error (Bytes × Bytes)
unfolding read_length take_string
decode_string total s = do
  (digits, t) ← read_length s
  n ← parsed_int (atoi digits)
  take_string total n t

-- The loop of `DecodeInteger`: the bytes before the 'e', and the suffix after it.
unfoldable pub read_integer : Bytes → Result Error (Bytes × Bytes)
read_integer [] = err bad_integer
read_integer (c ∷ cs) =
    let rest = with_byte c (read_integer cs) in if c == b'e' then ok ([], cs) else rest

-- `DecodeInteger`; the first byte, the 'i', is skipped.
unfoldable pub decode_integer : Bytes → Result Error (ℤ × Bytes)
unfolding read_integer
decode_integer s = do (digits, t) ← read_integer (drop 1 s); n ← parsed_int (atoi digits); ok (n, t)

-- The state of the loop of `DecodeDict`.
pub record Dict : Type 0 where
  pub fields : Fields
  pub raw : List (Bytes × Bytes)

-- `result[key] = value; rawValues[key] = input[startPos:*pos]`, where `s` is the suffix at
-- `startPos` and `t` the suffix behind the value.
unfoldable pub store : Bytes → Value → Bytes → Bytes → Dict → Dict
unfolding put put_raw
store k v s t m = record {
  fields = put k v m.fields;
  raw = put_raw k (take (length s - length t) s) m.raw;
}

unfoldable mutual
  unfolding append_item store

  -- `decode`
  pub decode : ℕ → ℕ → Bytes → Result Error (Value × Bytes)
  decode zero total s = err out_of_fuel
  decode (suc f) total [] = err unexpected_end
  decode (suc f) total (c ∷ cs) =
      let as_list = decode_items f total nil cs >>= λ (vs, t). ok (list vs, t) in
      let as_dict = decode_fields f total (record { fields = end; raw = [] }) cs >>= λ (m, t).
      ok (dict m.fields, t) in
      if is_digit c
      then (decode_string total (c ∷ cs) >>= λ (v, t). ok (str v, t))
      else if c == b'i'
      then (decode_integer (c ∷ cs) >>= λ (i, t). ok (int i, t))
      else if c == b'l'
      then as_list
      else if c == b'd'
      then as_dict
      else err unsupported

  -- the loop of `DecodeList`
  pub decode_items : ℕ → ℕ → Items → Bytes → Result Error (Items × Bytes)
  decode_items zero total acc s = err out_of_fuel
  decode_items (suc f) total acc [] = err missing_end
  decode_items (suc f) total acc (c ∷ cs) =
      let rest = decode f total (c ∷ cs) >>= λ (v, t). decode_items f total (append_item acc v) t in
      if c == b'e' then ok (acc, cs) else rest

  -- the loop of `DecodeDict`
  pub decode_fields : ℕ → ℕ → Dict → Bytes → Result Error (Dict × Bytes)
  decode_fields zero total acc s = err out_of_fuel
  decode_fields (suc f) total acc [] = err missing_end
  decode_fields (suc f) total acc (c ∷ cs) =
      let rest = decode_string total (c ∷ cs) >>= λ (k, s).
      decode f total s >>= λ (v, t). decode_fields f total (store k v s t acc) t in
      if c == b'e' then ok (acc, cs) else if not (is_digit c) then err bad_key else rest

-- Enough fuel for any suffix: each call below consumes a byte or stands directly under a loop.
abbrev pub fuel_for : Bytes → ℕ
fuel_for s = suc (2 * length s + 1)

-- `DecodeDict(input, pos)`; the first byte, the 'd', is skipped.
unfoldable pub decode_dict : ℕ → Bytes → Result Error (Dict × Bytes)
decode_dict total s =
    decode_fields (fuel_for s) total (record { fields = end; raw = [] }) (drop 1 s)

-- `Decode`
unfoldable pub decode_value : Bytes → Result Error Value
decode_value [] = err empty_input
decode_value (c ∷ cs) = decode (fuel_for (c ∷ cs)) (length (c ∷ cs)) (c ∷ cs) >>= λ (v, t). ok v
