-- ===== src/Torrent/Magnet.antt =====
-- torrent/magnet.go: magnet links. `url.Parse` with the query, and `base32`, are parameters; a query
-- gives each key its list of values. `strings.ToLower` and `ToUpper` are on ASCII text.
pub mod Links
pub mod Metadata
mod Tests
use bittorrent_client_go.Base.{
  ℤ, pos, Bool, true, false, Option, none, some, List, [], ◌∷◌, Bytes, bytes_eq, codes, ◌==◌,
  if◌then◌else◌, length, take, drop, lookup, hex_encode, hex_decode, to_lower, to_upper, Result, ok,
  err, ◌>>=◌,
}
use bittorrent_client_go.Bencode.{Fields, get, decode_dict}
use bittorrent_client_go.Torrent.{
  TorrentFile, ParseError, piece_length_not_found, pieces_not_found, required, decoded,
  read_lengths,
}
use bittorrent_client_go.Bencode.Assert.{string_of, int_of, name_or_empty}

pub record MagnetLink : Type 0 where
  pub info_hash : Bytes
  pub info_hash_hex : Bytes
  pub name : Bytes
  pub tracker_url : Bytes
  pub tracker_urls : List Bytes

pub data MagnetError : Type 0 where
  bad_url missing_xt bad_format bad_hex bad_base32 bad_length hash_mismatch : MagnetError

abbrev pub Query : Type 0
Query = List (Bytes × List Bytes)

-- `Query()[k]`
abbrev pub values : Bytes → Query → List Bytes
values k q = elim (lookup k q) [ none ↦ [] | some vs ↦ vs ]

abbrev pub first_or_empty : List Bytes → Bytes
first_or_empty [] = []
first_or_empty (v ∷ vs) = v

-- A decoded text, or the error for one that is not decoded
abbrev pub or_error : Option Bytes → MagnetError → Result MagnetError Bytes
or_error none e = err e
or_error (some s) e = ok s

module _ (parse_url : Bytes → Option Query) (base32_decode : Bytes → Option Bytes) where
  -- The info hash of the text behind the prefix, by its length
  unfoldable pub decode_hash : Bytes → Result MagnetError Bytes
  decode_hash hash_str =
      if length hash_str == 40
      then or_error (hex_decode hash_str) bad_hex
      else if length hash_str == 32
      then or_error (base32_decode (to_upper hash_str)) bad_base32
      else err bad_length

  -- `ParseMagnet` behind `url.Parse`, by the value of `xt`
  unfoldable pub read_xt : Bytes → Query → Result MagnetError MagnetLink
  unfolding decode_hash
  read_xt xt query =
      let trackers = values (codes "tr") query in
      if length xt == 0
      then err missing_xt
      else if bytes_eq (take 9 (to_lower xt)) (codes "urn:btih:")
      then (decode_hash (drop 9 xt) >>= λ info_hash. ok (record {
        info_hash = info_hash;
        info_hash_hex = hex_encode info_hash;
        name = first_or_empty (values (codes "dn") query);
        tracker_url = first_or_empty trackers;
        tracker_urls = trackers;
      }))
      else err bad_format

  -- `ParseMagnet`
  unfoldable pub parse_magnet : Bytes → Result MagnetError MagnetLink
  unfolding read_xt
  parse_magnet uri = elim (parse_url uri) [
    | none ↦ err bad_url
    | some query ↦ read_xt (first_or_empty (values (codes "xt") query)) query
  ]

module _ (sha1 : Bytes → Bytes) (hex : Bytes → Bytes) where
  -- `ToTorrentFile` behind the decoder
  unfoldable pub read_info : MagnetLink → Bytes → Fields → Result ParseError TorrentFile
  unfolding read_lengths
  read_info m computed_hash info =
      required (int_of (get (codes "piece length") info)) piece_length_not_found >>= λ piece_length.
      required (string_of (get (codes "pieces") info)) pieces_not_found >>= λ pieces.
      read_lengths info (record {
        announce = m.tracker_url;
        info_hash = computed_hash;
        info_hash_hex = m.info_hash_hex;
        piece_length = piece_length;
        length = pos 0;
        name = name_or_empty (string_of (get (codes "name") info));
        pieces = pieces;
        files = [];
        is_multi_file = false;
      })

  -- `ToTorrentFile`; `none` is the hash mismatch.
  unfoldable pub to_torrent_file : MagnetLink → Bytes → Option (Result ParseError TorrentFile)
  unfolding read_info
  to_torrent_file m raw_metadata =
      if bytes_eq (hex (sha1 raw_metadata)) m.info_hash_hex
      then some (
          decoded (decode_dict (length raw_metadata) raw_metadata) >>= λ (info, rest).
          read_info m (sha1 raw_metadata) info.fields)
      else none
