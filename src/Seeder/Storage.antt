-- ===== src/Seeder/Storage.antt =====
-- seeder/storage.go
pub mod Pieces
pub mod Bitfield
mod Tests
use Prim.Native.Nat.{bit_or}
use bittorrent_client_go.Base.{
  min, ℤ, pos, negsuc, ℕ, zero, suc, ◌+◌, ◌-◌, ◌*◌, ◌/◌, ◌%◌, ◌^◌, Bool, true, false, not, Option,
  none, some, List, [], ◌∷◌, ◌++◌, Bytes, bytes_eq, ltb, leb, ◌==◌, ◌||◌, ◌&&◌, if◌then◌else◌,
  length, take, drop, get_or, set, replicate, Result, ok, err, panic, ◌>>=◌,
}
use bittorrent_client_go.Torrent.{FileEntry, TorrentFile}

pub data LoadError : Type 0 where
  reading : LoadError
  length_mismatch : LoadError
  hash_mismatch : LoadError

-- `BuildBitfield`: the body of its loop for the `r` bits from `i` on
unfoldable pub set_bits : ℕ → ℕ → Bytes → Bytes
set_bits zero i bitfield = bitfield
set_bits (suc r) i bitfield =
    set_bits r (i + 1) (set bitfield (i / 8) (bit_or (get_or bitfield (i / 8) 0) (2 ^ (7 - i % 8))))

unfoldable pub build_bitfield : ℕ → Bytes
unfolding set_bits
build_bitfield num_pieces = set_bits num_pieces 0 (replicate ((num_pieces + 7) / 8) 0)

-- `data[from:to]`, which panics if the bounds are not in order or past the end.
unfoldable pub slice : Bytes → ℕ → ℕ → Result LoadError Bytes
slice contents from to =
    if ltb (length contents) to || ltb to from
    then panic
    else ok (take (to - from) (drop from contents))

-- `len(rawData) == tf.Length`
abbrev has_length : Bytes → ℤ → Bool
has_length contents (pos n) = length contents == n
has_length contents (negsuc n) = false

-- What the system gives: the contents of the file at a path, and the path joined of parts.
module _ (read_file : Bytes → Option Bytes) (join : List Bytes → Bytes) where
  unfoldable pub read_path : Bytes → Result LoadError Bytes
  read_path path = elim (read_file path) [ none ↦ err reading | some contents ↦ ok contents ]

  unfoldable pub read_files : Bytes → List FileEntry → Bytes → Result LoadError Bytes
  unfolding read_path
  read_files data_path [] raw_data = ok raw_data
  read_files data_path (f ∷ files) raw_data = read_path (join (data_path ∷ f.path)) >>= λ contents.
      read_files data_path files (raw_data ++ contents)

-- SHA-1 is a parameter.
module _ (sha1 : Bytes → Bytes) where
  -- The body of the loop of `LoadPieces` for the `r` pieces from `i` on
  unfoldable pub split_pieces : ℕ → ℕ → ℕ → Bytes → Bytes → Result LoadError (List Bytes)
  unfolding slice
  split_pieces zero i piece_length hashes raw_data = ok []
  split_pieces (suc r) i piece_length hashes raw_data =
      let start = i * piece_length in
      let stop = min (start + piece_length) (length raw_data) in
      slice raw_data start stop >>= λ piece.
      slice hashes (i * 20) ((i + 1) * 20) >>= λ expected_hash.
      let rest = split_pieces r (i + 1) piece_length hashes raw_data in
      if bytes_eq (sha1 piece) expected_hash
      then (rest >>= λ pieces. ok (piece ∷ pieces))
      else err hash_mismatch

  -- The pieces of the data: `totalPieces` is not positive where the sum wraps, and where the piece
  -- length is negative and there are two bytes; with fewer, the first slice panics. A piece length
  -- of zero makes the division panic.
  unfoldable pub all_pieces : ℤ → Bytes → Bytes → Result LoadError (List Bytes)
  unfolding split_pieces
  all_pieces (negsuc q) hashes raw_data = if ltb (length raw_data) 2 then panic else ok []
  all_pieces (pos n) hashes raw_data =
      if n == 0
      then panic
      else if leb (2 ^ 63) (length raw_data + n - 1)
      then ok []
      else split_pieces ((length raw_data + n - 1) / n) 0 n hashes raw_data

module _ (read_file : Bytes → Option Bytes) (join : List Bytes → Bytes) (sha1 : Bytes → Bytes) where
  -- `LoadPieces`
  unfoldable pub load_pieces : Bytes → TorrentFile → Result LoadError (List Bytes)
  unfolding read_path read_files all_pieces
  load_pieces data_path tf =
      (if tf.is_multi_file
        then read_files read_file join data_path tf.files []
        else read_path read_file join data_path)
      >>= λ raw_data.
          if has_length raw_data tf.length
          then all_pieces sha1 tf.piece_length tf.pieces raw_data
          else err length_mismatch
