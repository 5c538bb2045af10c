-- ===== src/Torrent/Magnet/Metadata.antt =====
-- The metadata that a peer sends for a magnet link, and the torrent file with the same info.
use bittorrent_client_go.Base.{
  ◌<◌, ◌≡◌, refl, pos, int_bound, false, Bool-cases, inl, inr, Option, none, some, [], Bytes,
  bytes_eq, bytes_eq_refl, codes, length, Result, ok, err, panic, ◌>>=◌,
}
use bittorrent_client_go.Bencode.{Value, str, dict, Fields, end, field, get}
use bittorrent_client_go.Dht.Krpc.{encode}
use bittorrent_client_go.Dht.Krpc.Body.{IsCanonical, CanonicalFields}
use bittorrent_client_go.Torrent.{
  TorrentFile, ParseError, piece_length_not_found, pieces_not_found, required, read_lengths,
  read_torrent, parse_data,
}
use bittorrent_client_go.Bencode.Assert.{name_or_empty, string_of, int_of}
use bittorrent_client_go.Torrent.InfoHash.{get_raw-encode_fields, parse_encoded, decode_dict-whole}
use bittorrent_client_go.Torrent.Magnet.{MagnetLink, read_info, to_torrent_file}

-- The value of a result, with no regard to which error there was.
abbrev pub value_of : {A : Type 0} → Result ParseError A → Option A
value_of (ok a) = some a
value_of (err e) = none
value_of panic = none

get-IsCanonical :
    (k : Bytes) (v : Value) (m : Fields) → CanonicalFields m → get k m ≡ some v → IsCanonical v
unfolding get CanonicalFields
get-IsCanonical k v end c e = cc
get-IsCanonical k v (field j w m) c e = elim (Bool-cases (bytes_eq j k)) [
  | inl hit ↦
      let same : some w ≡ some v = rw hit at e in let w_is_v : w ≡ v = cc in rw (← w_is_v) c.1
  | inr miss ↦ let later : get k m ≡ some v = rw miss at e in get-IsCanonical k v m c.2 later
]

-- Two required values may be looked for in either order.
required_swap :
    {A B C : Type 0} (a : Option A) (b : Option B) (e f : ParseError)
    (use_both : A → B → Result ParseError C)
    → value_of (required a e >>= λ x. required b f >>= λ y. use_both x y)
      ≡ value_of (required b f >>= λ y. required a e >>= λ x. use_both x y)
required_swap (some a) (some b) e f use_both = refl
required_swap (some a) none e f use_both = refl
required_swap none (some b) e f use_both = refl
required_swap none none e f use_both = refl

module _ (sha1 : Bytes → Bytes) (hex : Bytes → Bytes) where
  -- From a magnet link with a torrent's announce URL and info hash, the bencoding of the torrent's
  -- info dictionary gives the same torrent file as parsing the bencoding of the whole torrent, or
  -- none as that does, for one file as for several, if the torrent's keys are in bencoding's order
  -- at every level and its numbers and its size fit an `int`.
  pub to_torrent_file-parse_data :
      (m info : Fields) (announce : Bytes) (link : MagnetLink)
      → CanonicalFields m
      → length (encode (dict m)) < int_bound
      → length (encode (dict info)) < int_bound
      → get (codes "announce") m ≡ some (str announce)
      → get (codes "info") m ≡ some (dict info)
      → link.tracker_url ≡ announce
      → link.info_hash_hex ≡ hex (sha1 (encode (dict info)))
      → (found : Result ParseError TorrentFile) × (to_torrent_file sha1 hex link
            (encode (dict info))
          ≡ some found)
        × (value_of found ≡ value_of (parse_data sha1 hex (encode (dict m))))
  unfolding to_torrent_file read_info read_torrent IsCanonical
  to_torrent_file-parse_data m info announce link c small short ea ei eu eh =
      let info_c : CanonicalFields info = get-IsCanonical (codes "info") (dict info) m c ei in
      let decodes = decode_dict-whole info info_c short in
      let hash = sha1 (encode (dict info)) in
      let raw = get_raw-encode_fields (codes "info") (dict info) m ei in
      (
        read_info sha1 hex link hash info,
        rw (eh, bytes_eq_refl (hex hash), decodes) refl,
        rw (parse_encoded sha1 hex m c small) (
            rw (ea, ei, raw, eu, eh)
              (required_swap (int_of (get (codes "piece length") info))
                (string_of (get (codes "pieces") info)) piece_length_not_found pieces_not_found
                (λ piece_length pieces. read_lengths info (record {
                  announce = announce;
                  info_hash = hash;
                  info_hash_hex = hex hash;
                  piece_length = piece_length;
                  length = pos 0;
                  name = name_or_empty (string_of (get (codes "name") info));
                  pieces = pieces;
                  files = [];
                  is_multi_file = false;
                })))),
      )
