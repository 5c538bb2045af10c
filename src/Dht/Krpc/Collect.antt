-- ===== src/Dht/Krpc/Collect.antt =====
-- The maps that the loop of `DecodeDict` builds from entries with distinct keys.
use bittorrent_client_go.Base.{
  ◌≡◌, refl, ap, ◌∙◌, false, List, [], ◌∷◌, ◌++◌, append_assoc, append-nil, Bytes, bytes_eq, All,
}
use bittorrent_client_go.Bencode.{Value, Fields, end, field, put, put_raw, Dict}
use bittorrent_client_go.Dht.Krpc.{encode, encode_fields}
use bittorrent_client_go.Dht.Krpc.Body.{CanonicalFields, Above, bytes_eq-of_gt}

unfoldable pub store_all : Dict → Fields → Dict
store_all acc end = acc
store_all acc (field k v m) =
    store_all (record { fields = put k v acc.fields; raw = put_raw k (encode v) acc.raw }) m

abbrev pub empty_dict : Dict
empty_dict = record { fields = end; raw = [] }

abbrev join_fields : Fields → Fields → Fields
join_fields end m = m
join_fields (field k v l) m = field k v (join_fields l m)

-- No entry has the key.
abbrev Absent : Bytes → Fields → Type 0
Absent k end = Unit
Absent k (field j v m) = (bytes_eq j k ≡ false) × Absent k m

abbrev AbsentRaw : Bytes → List (Bytes × Bytes) → Type 0
AbsentRaw k = All (λ e. bytes_eq e.0 k ≡ false)

-- No key of the entries to come is in use.
abbrev IsFresh : Dict → Fields → Type 0
IsFresh d end = Unit
IsFresh d (field k v m) = Absent k d.fields × AbsentRaw k d.raw × IsFresh d m

put-Absent :
    (k : Bytes) (v : Value) (l : Fields) → Absent k l → put k v l ≡ join_fields l (field k v end)
unfolding put
put-Absent k v end a = refl
put-Absent k v (field j w l) a = rw (a.0, put-Absent k v l a.1)

put_raw-absent :
    (k v : Bytes) (l : List (Bytes × Bytes)) → AbsentRaw k l → put_raw k v l ≡ l ++ (k, v) ∷ []
unfolding put_raw
put_raw-absent k v [] a = refl
put_raw-absent k v ((j, w) ∷ l) a = rw (a.0, put_raw-absent k v l a.1)

Absent-put :
    (j k : Bytes) (v : Value) (l : Fields)
    → bytes_eq k j ≡ false
    → Absent k l
    → Absent j l
    → Absent j (put k v l)
unfolding put
Absent-put j k v end n a b = (n, tt)
Absent-put j k v (field i w l) n a b = rw a.0 (b.0, Absent-put j k v l n a.1 b.1)

AbsentRaw-put_raw :
    (j k v : Bytes) (l : List (Bytes × Bytes))
    → bytes_eq k j ≡ false
    → AbsentRaw k l
    → AbsentRaw j l
    → AbsentRaw j (put_raw k v l)
unfolding put_raw
AbsentRaw-put_raw j k v [] n a b = (n, tt)
AbsentRaw-put_raw j k v ((i, w) ∷ l) n a b = rw a.0 (b.0, AbsentRaw-put_raw j k v l n a.1 b.1)

put-IsFresh :
    (k : Bytes) (v : Value) (raw : Bytes) (d : Dict) (m : Fields)
    → Above k m
    → Absent k d.fields
    → AbsentRaw k d.raw
    → IsFresh d m
    → IsFresh (record { fields = put k v d.fields; raw = put_raw k raw d.raw }) m
put-IsFresh k v raw d end g a b h = tt
put-IsFresh k v raw d (field j w m) g a b h = (
  Absent-put j k v d.fields (bytes_eq-of_gt j k g.0) a h.0,
  AbsentRaw-put_raw j k raw d.raw (bytes_eq-of_gt j k g.0) b h.1,
  put-IsFresh k v raw d m g.1 a b h.2,
)

join_fields_assoc :
    (l : Fields) (k : Bytes) (v : Value) (m : Fields)
    → join_fields (join_fields l (field k v end)) m ≡ join_fields l (field k v m)
join_fields_assoc end k v m = refl
join_fields_assoc (field j w l) k v m = ap (field j w) (join_fields_assoc l k v m)

join_fields-end : (m : Fields) → join_fields m end ≡ m
join_fields-end end = refl
join_fields-end (field k v m) = ap (field k v) (join_fields-end m)

store_all-fields :
    (d : Dict) (m : Fields)
    → CanonicalFields m
    → IsFresh d m
    → (store_all d m).fields ≡ join_fields d.fields m
unfolding store_all CanonicalFields
store_all-fields d end c h = rw (join_fields-end d.fields)
store_all-fields d (field k v m) c h =
    store_all-fields (record { fields = put k v d.fields; raw = put_raw k (encode v) d.raw }) m c.2
      (put-IsFresh k v (encode v) d m c.0 h.0 h.1 h.2)
    ∙ rw (put-Absent k v d.fields h.0) (join_fields_assoc d.fields k v m)

store_all-raw :
    (d : Dict) (m : Fields)
    → CanonicalFields m
    → IsFresh d m
    → (store_all d m).raw ≡ d.raw ++ encode_fields m
unfolding store_all CanonicalFields encode_fields
store_all-raw d end c h = rw append-nil
store_all-raw d (field k v m) c h =
    store_all-raw (record { fields = put k v d.fields; raw = put_raw k (encode v) d.raw }) m c.2
      (put-IsFresh k v (encode v) d m c.0 h.0 h.1 h.2)
    ∙ rw (put_raw-absent k (encode v) d.raw h.1) (append_assoc d.raw _ _)

empty_dict-IsFresh : (m : Fields) → IsFresh empty_dict m
empty_dict-IsFresh end = tt
empty_dict-IsFresh (field k v m) = (tt, tt, empty_dict-IsFresh m)

-- From nothing the loop collects the entries, and each value's bytes.
pub store_all_lem :
    (m : Fields)
    → CanonicalFields m
    → store_all empty_dict m ≡ record { fields = m; raw = encode_fields m }
store_all_lem m c = λ i. record {
  fields = store_all-fields empty_dict m c (empty_dict-IsFresh m) i;
  raw = store_all-raw empty_dict m c (empty_dict-IsFresh m) i;
}
