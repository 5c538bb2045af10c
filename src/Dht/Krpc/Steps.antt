-- ===== src/Dht/Krpc/Steps.antt =====
-- One round of the decoder on the text that the encoder writes.
use bittorrent_client_go.Base.{
  ℕ, suc, ◌<◌, ◌≡◌, refl, ap, ℤ, FitsInt, true, false, [], ◌∷◌, ◌++◌, append_assoc, append-nil,
  Bytes, is_digit, ◌==◌, length, ok, arith,
}
use bittorrent_client_go.Bencode.Number.{print_int}
use bittorrent_client_go.Bencode.Decimal.{print_nat-HasHead}
use bittorrent_client_go.Bencode.{
  Value, str, int, list, dict, Items, nil, end, append_item, Dict, store, decode_string, decode,
  decode_items, decode_fields,
}
use bittorrent_client_go.Dht.Krpc.{encode_string, encode}
use bittorrent_client_go.Dht.Krpc.Atoms.{
  encode_string-append, length-encode_string, decode_integer-print_int,
}

abbrev pub StartsDigit : Bytes → Type 0
StartsDigit [] = ⊥
StartsDigit (c ∷ cs) = is_digit c ≡ true

abbrev pub StartsItem : Bytes → Type 0
StartsItem [] = ⊥
StartsItem (c ∷ cs) = (c == b'e') ≡ false

pub encode_string-StartsDigit : (k s : Bytes) → StartsDigit (encode_string k ++ s)
encode_string-StartsDigit k s =
    let (c, t, e, d) = print_nat-HasHead (length k) in rw (encode_string-append k s, e) d

StartsDigit-StartsItem : (x : Bytes) → StartsDigit x → StartsItem x
StartsDigit-StartsItem [] h = h
StartsDigit-StartsItem (c ∷ cs) h = ground arith

pub encode-StartsItem : (v : Value) (s : Bytes) → StartsItem (encode v ++ s)
unfolding encode
encode-StartsItem (str k) s = StartsDigit-StartsItem _ (encode_string-StartsDigit k s)
encode-StartsItem (int i) s = refl
encode-StartsItem (list vs) s = refl
encode-StartsItem (dict m) s = refl

pub decode-digit :
    (f total : ℕ) (k x t : Bytes)
    → StartsDigit x
    → decode_string total x ≡ ok (k, t)
    → decode (suc f) total x ≡ ok (str k, t)
unfolding decode
decode-digit f total k [] t h e = absurd h
decode-digit f total k (c ∷ cs) t h e = rw (h, e)

pub decode-encode_int :
    (f total : ℕ) (i : ℤ) (s : Bytes)
    → FitsInt i
    → decode (suc f) total (encode (int i) ++ s) ≡ ok (int i, s)
unfolding decode encode
decode-encode_int f total i s h =
    rw (append_assoc (print_int i) (b'e' ∷ []) s, decode_integer-print_int i s h)

pub decode_items-step :
    (f total : ℕ) (acc : Items) (v : Value) (x t : Bytes)
    → StartsItem x
    → decode f total x ≡ ok (v, t)
    → decode_items (suc f) total acc x ≡ decode_items f total (append_item acc v) t
unfolding decode
decode_items-step f total acc v [] t h e = absurd h
decode_items-step f total acc v (c ∷ cs) t h e = rw (h, e)

pub decode_fields-step :
    (f total : ℕ) (acc : Dict) (k : Bytes) (v : Value) (x s t : Bytes)
    → StartsDigit x
    → decode_string total x ≡ ok (k, s)
    → decode f total s ≡ ok (v, t)
    → decode_fields (suc f) total acc x ≡ decode_fields f total (store k v s t acc) t
unfolding decode
decode_fields-step f total acc k v [] s t h e g = absurd h
decode_fields-step f total acc k v (c ∷ cs) s t h e g =
    rw (StartsDigit-StartsItem (c ∷ cs) h, h, e, g)

pub decode-list :
    (f total : ℕ) (vs : Items) (x s : Bytes)
    → decode_items f total nil x ≡ ok (vs, s)
    → decode (suc f) total (b'l' ∷ x) ≡ ok (list vs, s)
unfolding decode
decode-list f total vs x s e = rw e

pub decode-dict :
    (f total : ℕ) (m : Dict) (x s : Bytes)
    → decode_fields f total (record { fields = end; raw = [] }) x ≡ ok (m, s)
    → decode (suc f) total (b'd' ∷ x) ≡ ok (dict m.fields, s)
unfolding decode
decode-dict f total m x s e = rw e

-- Encodings are not empty.
pub length-encode : (v : Value) → 0 < length (encode v)
unfolding encode
length-encode (str k) =
    omega (arith, length-encode_string k [], ap length (append-nil (encode_string k)))
length-encode (int i) = omega arith
length-encode (list vs) = omega arith
length-encode (dict m) = omega arith

pub decode_items-end :
    (f total : ℕ) (acc : Items) (s : Bytes)
    → decode_items (suc f) total acc (b'e' ∷ s) ≡ ok (acc, s)
unfolding decode
decode_items-end f total acc s = refl

pub decode_fields-end :
    (f total : ℕ) (acc : Dict) (s : Bytes)
    → decode_fields (suc f) total acc (b'e' ∷ s) ≡ ok (acc, s)
unfolding decode
decode_fields-end f total acc s = refl
