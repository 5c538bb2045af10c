-- ===== src/Bencode/Progress.antt =====
-- The decoder ends: every value consumes input, so the fuel that its entry points give is enough.
use bittorrent_client_go.Base.{
  ℕ, zero, suc, ◌+◌, ◌-◌, ◌*◌, ◌<◌, ◌≡◌, ◌≢◌, refl, sym, ap, ◌∙◌, ℤ, pos, negsuc, int_bound, Option,
  none, some, [], ◌∷◌, ◌++◌, append_assoc, Bytes, is_digit, not, ltb, leb, ◌==◌, length,
  length-append, take, take-append-drop, Result, ok, err, panic, Post, bind-Post, if-Post, arith,
}
use bittorrent_client_go.Bencode.Number.{atoi}
use bittorrent_client_go.Bencode.{
  Items, nil, end, append_item, Dict, store, Error, out_of_fuel, parsed_int, with_byte, read_length,
  take_string, decode_string, read_integer, decode_integer, decode, decode_items, decode_fields,
  decode_value, fuel_for,
}

-- `t` is what is left of `s` behind at least one byte.
abbrev pub IsConsumed : Bytes → Bytes → Type 0
IsConsumed s t = (front : Bytes) × (s ≡ front ++ t) × (0 < length front)

-- `t` is what is left of `s`.
abbrev pub IsSuffix : Bytes → Bytes → Type 0
IsSuffix s t = (front : Bytes) × (s ≡ front ++ t)

IsConsumed-length : (s t : Bytes) → IsConsumed s t → length t < length s
IsConsumed-length s t (front, e, h) = omega (arith, ap length e, length-append front t)

IsSuffix-cons : (c : ℕ) (s t : Bytes) → IsSuffix s t → IsConsumed (c ∷ s) t
IsSuffix-cons c s t (front, e) = (c ∷ front, ap (◌∷◌ c) e, omega arith)

IsConsumed-suffix : (s t u : Bytes) → IsConsumed s t → IsSuffix t u → IsConsumed s u
IsConsumed-suffix s t u (a, e, h) (b, g) =
    (a ++ b, e ∙ ap (◌++◌ a) g ∙ sym (append_assoc a b u), omega (arith, length-append a b))

IsConsumed-trans : (s t u : Bytes) → IsConsumed s t → IsConsumed t u → IsConsumed s u
IsConsumed-trans s t u h (b, g, k) = IsConsumed-suffix s t u h (b, g)

-- A result that leaves a shorter suffix of `s`, and no error for want of fuel.
abbrev pub Consumes : {A : Type 0} → Bytes → Result Error (A × Bytes) → Type 0
Consumes s = Post (λ r. IsConsumed s r.1) (λ e. e ≢ out_of_fuel)

with_byte-Consumes :
    (c : ℕ) (s : Bytes) (r : Result Error (Bytes × Bytes))
    → Consumes s r
    → Consumes (c ∷ s) (with_byte c r)
with_byte-Consumes c s (ok (d, t)) (front, e, h) = (c ∷ front, ap (◌∷◌ c) e, omega arith)
with_byte-Consumes c s (err e) h = h
with_byte-Consumes c s panic h = tt

read_length-Consumes : (s : Bytes) → Consumes s (read_length s)
unfolding read_length
read_length-Consumes [] = λ e. cc
read_length-Consumes (c ∷ cs) =
    if-Post _ _ (c == b':') _ _ (c ∷ [], refl, omega arith)
      (if-Post _ _ (not (is_digit c)) _ _ (λ e. cc)
        (with_byte-Consumes c cs (read_length cs) (read_length-Consumes cs)))

read_integer-Consumes : (s : Bytes) → Consumes s (read_integer s)
unfolding read_integer
read_integer-Consumes [] = λ e. cc
read_integer-Consumes (c ∷ cs) =
    if-Post _ _ (c == b'e') _ _ (c ∷ [], refl, omega arith)
      (with_byte-Consumes c cs (read_integer cs) (read_integer-Consumes cs))

parsed_int-Post : (o : Option ℤ) → Post (λ i. Unit {0}) (λ e. e ≢ out_of_fuel) (parsed_int o)
parsed_int-Post none = λ e. cc
parsed_int-Post (some i) = tt

take_string-Post :
    (total : ℕ) (n : ℤ) (s : Bytes)
    → Post (λ r. IsSuffix s r.1) (λ e. e ≢ out_of_fuel) (take_string total n s)
unfolding take_string
take_string-Post total (negsuc n) s = tt
take_string-Post total (pos n) s =
    if-Post _ _ (leb int_bound ((total - length s) + n)) _ _ tt
      (if-Post _ _ (ltb (length s) n) _ _ (λ e. cc) (take n s, sym (take-append-drop n s)))

decode_string-Consumes : (total : ℕ) (s : Bytes) → Consumes s (decode_string total s)
unfolding decode_string
decode_string-Consumes total s = bind-Post _ _ _ (read_length s) _ (read_length-Consumes s) (λ r h.
    bind-Post _ _ _ (parsed_int (atoi r.0)) _ (parsed_int-Post (atoi r.0))
      (λ n _. weaken s r.1 h (take_string total n r.1) (take_string-Post total n r.1)))
  where
    weaken :
        (s t : Bytes) (h : IsConsumed s t) (r : Result Error (Bytes × Bytes))
        → Post (λ q. IsSuffix t q.1) (λ e. e ≢ out_of_fuel) r
        → Consumes s r
    weaken s t h (ok q) k = IsConsumed-suffix s t q.1 h k
    weaken s t h (err e) k = k
    weaken s t h panic k = tt

decode_integer-Consumes : (c : ℕ) (s : Bytes) → Consumes (c ∷ s) (decode_integer (c ∷ s))
unfolding decode_integer
decode_integer-Consumes c s = bind-Post _ _ _ (read_integer s) _ (read_integer-Consumes s) (λ r h.
    bind-Post _ _ _ (parsed_int (atoi r.0)) _ (parsed_int-Post (atoi r.0))
      (λ n _. IsSuffix-cons c s r.1 (h.0, h.1)))

Consumes-after :
    {A : Type 0} (s t : Bytes)
    → IsConsumed s t
    → (r : Result Error (A × Bytes)) → Consumes t r
    → Consumes s r
Consumes-after s t h (ok q) k = IsConsumed-trans s t q.1 h k
Consumes-after s t h (err e) k = k
Consumes-after s t h panic k = tt

mutual
  unfolding decode

  decode-Consumes : (f total : ℕ) (s : Bytes) → 2 * length s < f → Consumes s (decode f total s)
  decode-Consumes zero total s h = elim h [ ]
  decode-Consumes (suc f) total [] h = λ e. cc
  decode-Consumes (suc f) total (c ∷ cs) h =
      if-Post _ _ (is_digit c) _ _
        (bind-Post _ _ _ (decode_string total (c ∷ cs)) _ (decode_string-Consumes total (c ∷ cs))
          (λ r k. k))
        (if-Post _ _ (c == b'i') _ _
          (bind-Post _ _ _ (decode_integer (c ∷ cs)) _ (decode_integer-Consumes c cs) (λ r k. k))
          (if-Post _ _ (c == b'l') _ _
            (bind-Post _ _ _ (decode_items f total nil cs) _
              (decode_items-Consumes f total nil cs (omega arith))
              (λ r k. IsSuffix-cons c cs r.1 (k.0, k.1)))
            (if-Post _ _ (c == b'd') _ _
              (bind-Post _ _ _ (decode_fields f total (record { fields = end; raw = [] }) cs) _
                (decode_fields-Consumes f total (record { fields = end; raw = [] }) cs
                  (omega arith))
                (λ r k. IsSuffix-cons c cs r.1 (k.0, k.1)))
              (λ e. cc))))

  decode_items-Consumes :
      (f total : ℕ) (acc : Items) (s : Bytes)
      → 2 * length s + 1 < f
      → Consumes s (decode_items f total acc s)
  decode_items-Consumes zero total acc s h = elim h [ ]
  decode_items-Consumes (suc f) total acc [] h = λ e. cc
  decode_items-Consumes (suc f) total acc (c ∷ cs) h =
      if-Post _ _ (c == b'e') _ _ (c ∷ [], refl, omega arith)
        (bind-Post _ _ _ (decode f total (c ∷ cs)) _
          (decode-Consumes f total (c ∷ cs) (omega arith))
          (λ r k. Consumes-after (c ∷ cs) r.1 k (decode_items f total (append_item acc r.0) r.1) (
            decode_items-Consumes f total (append_item acc r.0) r.1
              (omega (arith, IsConsumed-length (c ∷ cs) r.1 k)))))

  decode_fields-Consumes :
      (f total : ℕ) (acc : Dict) (s : Bytes)
      → 2 * length s + 1 < f
      → Consumes s (decode_fields f total acc s)
  decode_fields-Consumes zero total acc s h = elim h [ ]
  decode_fields-Consumes (suc f) total acc [] h = λ e. cc
  decode_fields-Consumes (suc f) total acc (c ∷ cs) h =
      if-Post _ _ (c == b'e') _ _ (c ∷ [], refl, omega arith)
        (if-Post _ _ (not (is_digit c)) _ _ (λ e. cc)
          (bind-Post _ _ _ (decode_string total (c ∷ cs)) _ (decode_string-Consumes total (c ∷ cs))
            (λ q j.
              bind-Post _ _ _ (decode f total q.1) _
                (decode-Consumes f total q.1 (omega (arith, IsConsumed-length (c ∷ cs) q.1 j)))
                (λ r k.
                  Consumes-after (c ∷ cs) r.1 (IsConsumed-trans (c ∷ cs) q.1 r.1 j k)
                    (decode_fields f total (store q.0 r.0 q.1 r.1 acc) r.1)
                    (decode_fields-Consumes f total (store q.0 r.0 q.1 r.1 acc) r.1 (
                      omega
                        (arith, IsConsumed-length (c ∷ cs) q.1 j, IsConsumed-length q.1 r.1 k)))))))

decode_value-Post : (s : Bytes) → Post (λ v. Unit {0}) (λ e. e ≢ out_of_fuel) (decode_value s)
unfolding decode_value
decode_value-Post [] = λ e. cc
decode_value-Post (c ∷ cs) =
    let s = c ∷ cs in
    bind-Post _ _ _ (decode (fuel_for s) (length s) s) _
      (decode-Consumes (fuel_for s) (length s) s (omega arith)) (λ r k. tt)

ne-out_of_fuel :
    {A : Type 0} (r : Result Error A)
    → Post (λ v. Unit {0}) (λ e. e ≢ out_of_fuel) r
    → r ≢ err out_of_fuel
ne-out_of_fuel (ok a) h e = cc
ne-out_of_fuel (err x) h e = h (ground arith)
ne-out_of_fuel panic h e = cc

-- The model of `Decode` never runs out of fuel, on any input: the source's recursion ends.
pub decode_value-ends : (s : Bytes) → decode_value s ≢ err out_of_fuel
decode_value-ends s = ne-out_of_fuel (decode_value s) (decode_value-Post s)
