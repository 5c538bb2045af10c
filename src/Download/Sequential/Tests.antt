-- ===== src/Download/Sequential/Tests.antt =====
-- A file of three bytes in two pieces, of which the first comes with a wrong byte once.
use bittorrent_client_go.Base.{
  arith, ℕ, ◌≡◌, ◌+◌, ◌-◌, ◌/◌, refl, pos, true, some, List, [], ◌∷◌, ◌++◌, Bytes, codes, length,
  take, replicate, put_u32, copy_at, bytes_eq, ok, err, panic,
}
use bittorrent_client_go.Peer.Client.{Incoming, message, failed, Client, put_block, block_requests}
use bittorrent_client_go.Download.Picker.{piece_count}
use bittorrent_client_go.Download.Sequential.{get_file}
use bittorrent_client_go.Download.Sequential.Verified.{joined, ArePieces, get_file-ArePieces}

abbrev digest : Bytes → Bytes
digest s = take 20 (s ++ replicate 20 0)

abbrev hashes : Bytes
hashes = digest (codes "ab") ++ digest (codes "c")

abbrev piece : ℕ → Bytes → Incoming
piece index s = message 7 (some (put_u32 index ++ (put_u32 0 ++ s)))

abbrev client : Client
client = record {
  address = codes "10.0.0.1:6881";
  peer_id = [];
  metadata_ext_id = pos 0;
  supports_extensions = true;
  handshake_sent = true;
  incoming = piece 0 (codes "xb") ∷ failed ∷ piece 0 (codes "ab") ∷ piece 1 (codes "c") ∷ [];
  sent = [];
}

-- What is returned, or nothing
abbrev outcome : Bytes × Client
outcome = elim (get_file digest hashes 3 2 client) [
  | ok r ↦ r
  | err e ↦ ([], client)
  | panic ↦ ([], client)
]

got : get_file digest hashes 3 2 client ≡ ok outcome
unfolding get_file copy_at bytes_eq block_requests put_block piece_count
got = refl

third_attempt : outcome.0 ≡ codes "abc"
unfolding get_file copy_at bytes_eq block_requests put_block piece_count
third_attempt = refl

get_file-ArePieces_example :
    (ps : List Bytes) × (length ps ≡ (3 + 2 - 1) / 2)
    × (outcome.0 ≡ joined ps)
    × ArePieces digest hashes 3 2 0 ps
get_file-ArePieces_example =
    get_file-ArePieces digest hashes 3 2 client outcome.1 outcome.0 (omega arith) got
