-- ===== src/Torrent.antt =====
-- torrent/torrent.go: the metadata of a torrent. An `int` wraps at 64 bits.
pub mod InfoHash
pub mod Magnet
mod Tests
use bittorrent_client_go.Base.{
  hex_encode, zero, ℕ, suc, ◌+◌, ◌-◌, ◌^◌, ℤ, pos, negsuc, Bool, true, false, Option, none, some,
  List, [], ◌∷◌, ◌++◌, Bytes, codes, ltb, ◌==◌, if◌then◌else◌, length, take, drop, Result, ok, err,
  panic, ◌>>=◌,
}
use bittorrent_client_go.Bencode.Assert.{string_of, int_of, list_of, dict_of, name_or_empty}
use bittorrent_client_go.Bencode.{
  Value, str, int, list, dict, Items, nil, cons, Fields, get, get_raw, Error, decode_dict,
}

pub record FileEntry : Type 0 where
  pub length : ℤ
  pub path : List Bytes

pub record TorrentFile : Type 0 where
  pub announce : Bytes
  pub info_hash : Bytes
  pub info_hash_hex : Bytes
  pub piece_length : ℤ
  pub length : ℤ
  pub name : Bytes
  pub pieces : Bytes
  pub files : List FileEntry
  pub is_multi_file : Bool

pub data ParseError : Type 0 where
  reading not_a_dictionary announce_not_found info_not_found pieces_not_found : ParseError
  piece_length_not_found length_not_found bad_entry no_entry_length no_path bad_path : ParseError
  decoding : Error → ParseError

-- A value, or the error for a missing one
abbrev pub required : {A : Type 0} → Option A → ParseError → Result ParseError A
required (some a) e = ok a
required none e = err e

-- The sum of two `int`
unfoldable pub add_int : ℤ → ℤ → ℤ
add_int (pos a) (pos b) =
    if ltb (a + b) (2 ^ 63) then pos (a + b) else negsuc (2 ^ 64 - (a + b) - 1)
add_int (pos a) (negsuc b) = if ltb b a then pos (a - b - 1) else negsuc (b - a)
add_int (negsuc a) (pos b) = if ltb a b then pos (b - a - 1) else negsuc (a - b)
add_int (negsuc a) (negsuc b) =
    if ltb (a + b + 1) (2 ^ 63) then negsuc (a + b + 1) else pos (2 ^ 64 - (a + b + 2))

-- The loop over the components of a path
unfoldable pub read_path_list : Items → Result ParseError (List Bytes)
read_path_list nil = ok []
read_path_list (cons p ps) =
    let rest = read_path_list ps in
    required (string_of (some p)) bad_path >>= λ s. rest >>= λ path. ok (s ∷ path)

unfoldable pub read_entry : Value → Result ParseError FileEntry
unfolding read_path_list
read_entry f = required (dict_of (some f)) bad_entry >>= λ file_dict.
    required (int_of (get (codes "length") file_dict)) no_entry_length >>= λ fl.
    required (list_of (get (codes "path") file_dict)) no_path >>= λ path_list.
    read_path_list path_list >>= λ path. ok (record { length = fl; path = path })

-- The loop over the files: the files, and their length in all added to `total`
unfoldable pub read_entries : ℤ → Items → Result ParseError (List FileEntry × ℤ)
unfolding read_entry add_int
read_entries total nil = ok ([], total)
read_entries total (cons f fs) = read_entry f >>= λ entry.
    read_entries (add_int total entry.length) fs >>= λ (entries, sum). ok (entry ∷ entries, sum)

-- What the rest of `ParseFile` sets: the files, the length, and whether there are several
unfoldable pub read_lengths : Fields → TorrentFile → Result ParseError TorrentFile
unfolding read_entries
read_lengths info tf = elim (list_of (get (codes "files") info)) [
  | some files_list ↦ read_entries (pos 0) files_list >>= λ (entries, total).
      ok (record tf { is_multi_file = true; files = entries; length = total })
  | none ↦ required (int_of (get (codes "length") info)) length_not_found >>= λ n.
      ok (record tf { length = n })
]

abbrev pub decoded : {A : Type 0} → Result Error A → Result ParseError A
decoded (ok a) = ok a
decoded (err e) = err (decoding e)
decoded panic = panic

-- SHA-1 and `hex.EncodeToString` are parameters.
module _ (sha1 : Bytes → Bytes) (hex : Bytes → Bytes) where
  -- `ParseFile` behind the decoder
  unfoldable pub read_torrent : Fields → List (Bytes × Bytes) → Result ParseError TorrentFile
  unfolding read_lengths
  read_torrent torrent raw_values =
      required (string_of (get (codes "announce") torrent)) announce_not_found >>= λ announce.
      required (dict_of (get (codes "info") torrent)) info_not_found >>= λ info.
      required (string_of (get (codes "pieces") info)) pieces_not_found >>= λ pieces.
      required (int_of (get (codes "piece length") info)) piece_length_not_found >>= λ piece_length.
      read_lengths info (record {
        announce = announce;
        info_hash = sha1 (get_raw (codes "info") raw_values);
        info_hash_hex = hex (sha1 (get_raw (codes "info") raw_values));
        piece_length = piece_length;
        length = pos 0;
        name = name_or_empty (string_of (get (codes "name") info));
        pieces = pieces;
        files = [];
        is_multi_file = false;
      })

  -- `ParseFile` behind the reading of the file
  unfoldable pub parse_data : Bytes → Result ParseError TorrentFile
  unfolding read_torrent
  parse_data [] = err not_a_dictionary
  parse_data (c ∷ cs) =
      if c == b'd'
      then (decoded (decode_dict (length (c ∷ cs)) (c ∷ cs)) >>= λ (found, rest).
          read_torrent found.fields found.raw)
      else err not_a_dictionary

  -- `ParseFile`
  unfoldable pub parse_file : (Bytes → Option Bytes) → Bytes → Result ParseError TorrentFile
  unfolding parse_data
  parse_file read_file path = elim (read_file path) [
    | none ↦ err reading
    | some contents ↦ parse_data contents
  ]

-- The loop of `PieceHashes` from the index of a suffix on
unfoldable pub hashes_from : ℕ → Bytes → List Bytes
unfolding hex_encode
hashes_from zero s = []
hashes_from (suc fuel) [] = []
hashes_from (suc fuel) (b ∷ s) = hex_encode (take 20 (b ∷ s)) ∷ hashes_from fuel (drop 20 (b ∷ s))

-- `PieceHashes`; each hash takes bytes, so that their number is enough fuel.
unfoldable pub piece_hashes : TorrentFile → List Bytes
unfolding hashes_from
piece_hashes tf = hashes_from (length tf.pieces) tf.pieces
