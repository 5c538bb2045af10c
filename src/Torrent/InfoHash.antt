-- ===== src/Torrent/InfoHash.antt =====
-- `ParseFile` on the bencoding of a torrent with a single file.
use bittorrent_client_go.Base.{
  ◌<◌, ◌≡◌, refl, ap, ◌∙◌, ℤ, int_bound, false, Bool-cases, inl, inr, none, some, [], ◌∷◌,
  append-nil, Bytes, bytes_eq, codes, length, ok, arith,
}
use mathlib.Core.Path.{subst}
use bittorrent_client_go.Bencode.{
  Value, str, int, dict, Fields, end, field, get, get_raw, Dict, decode_dict,
}
use bittorrent_client_go.Dht.Krpc.{encode, encode_fields}
use bittorrent_client_go.Dht.Krpc.Body.{CanonicalFields, encode-dict}
use bittorrent_client_go.Dht.Krpc.RoundTrip.{decode_dict-encode}
use bittorrent_client_go.Torrent.{read_lengths, read_torrent, parse_data}
use bittorrent_client_go.Bencode.Assert.{name_or_empty, string_of}

pub get_raw-encode_fields :
    (k : Bytes) (v : Value) (m : Fields) → get k m ≡ some v → get_raw k (encode_fields m) ≡ encode v
unfolding get get_raw encode_fields
get_raw-encode_fields k v end e = cc
get_raw-encode_fields k v (field j w m) e = elim (Bool-cases (bytes_eq j k)) [
  | inl hit ↦
      let same : some w ≡ some v = rw hit at e in
      let w_is_v : w ≡ v = cc in rw hit (ap encode w_is_v)
  | inr miss ↦
      let later : get k m ≡ some v = rw miss at e in rw miss (get_raw-encode_fields k v m later)
]

pub decode_dict-whole :
    (m : Fields)
    → CanonicalFields m
    → length (encode (dict m)) < int_bound
    → decode_dict (length (encode (dict m))) (encode (dict m))
      ≡ ok (record { fields = m; raw = encode_fields m }, [])
decode_dict-whole m c small =
    let whole = append-nil (encode (dict m)) in
    subst
      (λ s.
        decode_dict (length (encode (dict m))) s
        ≡ ok (record { fields = m; raw = encode_fields m }, []))
      whole
      (decode_dict-encode (length (encode (dict m))) m [] c (omega (arith, ap length whole)) small)

module _ (sha1 : Bytes → Bytes) (hex : Bytes → Bytes) where
  parse_decoded :
      (t : Bytes) (found : Dict) (rest : Bytes)
      → decode_dict (length (b'd' ∷ t)) (b'd' ∷ t) ≡ ok (found, rest)
      → parse_data sha1 hex (b'd' ∷ t) ≡ read_torrent sha1 hex found.fields found.raw
  unfolding parse_data
  parse_decoded t found rest e = rw e refl

  pub parse_encoded :
      (m : Fields)
      → CanonicalFields m
      → length (encode (dict m)) < int_bound
      → parse_data sha1 hex (encode (dict m)) ≡ read_torrent sha1 hex m (encode_fields m)
  parse_encoded m c small =
      let shape = encode-dict m c in
      rw shape (
        parse_decoded _ (record { fields = m; raw = encode_fields m }) []
          (rw shape at (decode_dict-whole m c small)))

  -- The bencoding of a torrent whose info dictionary has pieces, a piece length and a length and no
  -- files is parsed to these, and the info hash is the hash of the bencoding of the info dictionary,
  -- if the torrent's keys are in bencoding's order at every level and its numbers and its size fit
  -- an `int`.
  pub parse_data-encode :
      (m info : Fields) (announce pieces : Bytes) (piece_len len : ℤ)
      → CanonicalFields m
      → length (encode (dict m)) < int_bound
      → get (codes "announce") m ≡ some (str announce)
      → get (codes "info") m ≡ some (dict info)
      → get (codes "pieces") info ≡ some (str pieces)
      → get (codes "piece length") info ≡ some (int piece_len)
      → get (codes "length") info ≡ some (int len)
      → get (codes "files") info ≡ none
      → parse_data sha1 hex (encode (dict m))
        ≡ ok (record {
          announce = announce;
          info_hash = sha1 (encode (dict info));
          info_hash_hex = hex (sha1 (encode (dict info)));
          piece_length = piece_len;
          length = len;
          name = name_or_empty (string_of (get (codes "name") info));
          pieces = pieces;
          files = [];
          is_multi_file = false;
        })
  unfolding read_torrent read_lengths
  parse_data-encode m info announce pieces piece_len len c small ea ei ep el en ef =
      parse_encoded m c small
      ∙ rw (ea, ei, ep, el, get_raw-encode_fields (codes "info") (dict info) m ei)
          (rw (ef, read_lengths) (rw en refl))
