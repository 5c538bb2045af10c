-- ===== src/Download/Sequential.antt =====
-- download/download.go: the download of a file over one connection, piece by piece. Lengths are
-- positive or zero.
pub mod Verified
mod Tests
use bittorrent_client_go.Base.{
  ℕ, zero, suc, ◌+◌, ◌-◌, ◌*◌, ◌/◌, Bool, true, false, Option, none, some, List, [], ◌∷◌, ◌++◌,
  Bytes, bytes_eq, ltb, ◌==◌, if◌then◌else◌, length, Result, ok, err, panic, ◌>>=◌,
}
use bittorrent_client_go.Peer.Client.{
  Incoming, message, timed_out, failed, Client, ClientError, blocks_of, block_requests,
  download_piece,
}
use bittorrent_client_go.Download.Picker.{piece_count, piece_length}
use bittorrent_client_go.Download.Manager.{hash_of}

pub data DownloadError : Type 0 where
  not_received : ClientError → DownloadError
  wrong_hash : DownloadError

-- The messages left when the loop of `DownloadPiece` ends while `n` blocks are missing
unfoldable pub left_by : List Incoming → ℕ → List Incoming
left_by stream zero = stream
left_by [] (suc n) = []
left_by (timed_out ∷ stream) (suc n) = stream
left_by (failed ∷ stream) (suc n) = stream
left_by (message id none ∷ stream) (suc n) = left_by stream (suc n)
left_by (message id (some payload) ∷ stream) (suc n) =
    let skipped = left_by stream (suc n) in
    let stored = left_by stream n in if id == 7 then stored else skipped

-- The client behind a call of `DownloadPiece` that returned an error
unfoldable pub after_error : ℕ → ℕ → Client → Client
unfolding left_by block_requests
after_error index n c = record c {
  incoming = left_by c.incoming (blocks_of n);
  sent = c.sent ++ block_requests (blocks_of n) 0 index n;
}

module _ (sha1 : Bytes → Bytes) (hashes : Bytes) where
  -- The loop of `Piece` with `r` attempts left, and the error of the last one
  unfoldable pub try_piece :
      ℕ → DownloadError → ℕ → ℕ → Client → Result DownloadError (Bytes × Client)
  unfolding download_piece after_error
  try_piece zero last index n c = err last
  try_piece (suc r) last index n c = elim (download_piece index n c) [
    | panic ↦ panic
    | err e ↦ try_piece r (not_received e) index n (after_error index n c)
    | ok (piece_data, d) ↦
        let again = try_piece r wrong_hash index n d in
        if ltb (length hashes) ((index + 1) * 20)
        then panic
        else if bytes_eq (sha1 piece_data) (hash_of hashes index)
        then ok (piece_data, d)
        else again
  ]

  -- `Piece`
  unfoldable pub get_piece : ℕ → ℕ → Client → Result DownloadError (Bytes × Client)
  unfolding try_piece
  get_piece index n c = try_piece 3 wrong_hash index n c

  -- The loop of `File` over the `r` pieces from piece `i` on
  unfoldable pub get_pieces : ℕ → ℕ → ℕ → ℕ → Bytes → Client → Result DownloadError (Bytes × Client)
  unfolding get_piece piece_length piece_count
  get_pieces zero i total normal file_data c = ok (file_data, c)
  get_pieces (suc r) i total normal file_data c =
      get_piece i (piece_length total normal (piece_count total normal) i) c >>= λ (piece_data, d).
      get_pieces r (i + 1) total normal (file_data ++ piece_data) d

  -- `File`; the division by a piece length of zero panics.
  unfoldable pub get_file : ℕ → ℕ → Client → Result DownloadError (Bytes × Client)
  unfolding get_pieces piece_count
  get_file total normal c =
      if normal == 0 then panic else get_pieces (piece_count total normal) 0 total normal [] c
