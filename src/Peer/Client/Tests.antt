-- ===== src/Peer/Client/Tests.antt =====
-- A peer that sends a piece of two blocks, or metadata of six bytes.
use bittorrent_client_go.Base.{
  ℕ, zero, suc, ◌≡◌, ◌<◌, refl, pos, true, none, some, inr, List, [], ◌∷◌, ◌++◌, map, Bytes, codes,
  length, replicate, bytes_eq, bytes_gt, int_bound, put_u32, copy_at, ok, panic, arith,
}
use bittorrent_client_go.Bencode.Number.{print_nat, print_int}
use bittorrent_client_go.Bencode.{get_raw}
use bittorrent_client_go.Dht.Krpc.{encode}
use bittorrent_client_go.Peer.Client.{
  Incoming, message, failed, Client, skip_to_unchoke, receive_blocks, put_block, download_piece,
}
use bittorrent_client_go.Peer.Client.Pieces.{
  Delivery, keepalive, other, block, delivered, blocks_among, has, download_piece-any_order,
}
use bittorrent_client_go.Peer.Client.Faults.{download_piece_panic}
use bittorrent_client_go.Peer.Client.Extension.{request_metadata}
use bittorrent_client_go.Peer.Client.Extension.Metadata.{
  answers, answer_body, request_metadata-answers,
}

abbrev two_blocks : Bytes
two_blocks = replicate 20000 7

abbrev client_of : List Incoming → Client
client_of stream = record {
  address = codes "10.0.0.1:6881";
  peer_id = [];
  metadata_ext_id = pos 0;
  supports_extensions = true;
  handshake_sent = true;
  incoming = stream;
  sent = [];
}

unchoked :
    skip_to_unchoke (message 0 none ∷ message 4 (some []) ∷ message 1 (some []) ∷ failed ∷ [])
    ≡ ok (failed ∷ [])
unfolding skip_to_unchoke
unchoked = refl

-- A block that comes twice is counted twice, and the other block is missing.
twice :
    receive_blocks
      (message 7 (some (put_u32 0 ++ (put_u32 0 ++ codes "ab")))
        ∷ message 7 (some (put_u32 0 ++ (put_u32 0 ++ codes "ab")))
        ∷ [])
      2
      (replicate 4 0)
    ≡ ok (codes "ab" ++ 0 ∷ 0 ∷ [], [])
unfolding receive_blocks put_block copy_at
twice = refl

any_order : List Delivery
any_order = keepalive ∷ block 1 ∷ other 4 [] ∷ block 0 ∷ []

both : (b : ℕ) → b < 2 → has b (1 ∷ 0 ∷ []) ≡ true
unfolding has
both zero h = refl
both (suc zero) h = refl
both (suc (suc b)) h = absurd (omega (arith, h))

length-two_blocks : length two_blocks ≡ 20000
length-two_blocks = refl

download_piece-any_order_example :
    (d : Client) × (download_piece 3
        (length two_blocks)
        (client_of (map (delivered two_blocks 3) any_order))
      ≡ ok (two_blocks, d))
unfolding any_order blocks_among
download_piece-any_order_example =
    download_piece-any_order two_blocks 3 any_order
      (client_of (map (delivered two_blocks 3) any_order)) (omega (arith, length-two_blocks)) refl
      (tt, (omega (arith, length-two_blocks), (refl, (omega (arith, length-two_blocks), tt)))) refl
      both

download_piece_panic_example :
    download_piece 3 100 (client_of (message 7 (some (put_u32 3 ++ put_u32 101)) ∷ [])) ≡ panic
download_piece_panic_example =
    download_piece_panic 3 100 (put_u32 3 ++ put_u32 101) []
      (client_of (message 7 (some (put_u32 3 ++ put_u32 101)) ∷ [])) (omega arith) refl
      (inr (omega arith))

short : (q : ℕ) → q < 1 → length (answer_body (codes "d1:xe.") q) < int_bound
unfolding encode print_nat print_int get_raw bytes_eq bytes_gt
short zero h = omega arith
short (suc q) h = absurd (omega (arith, h))

request_metadata-answers_example :
    (d : Client) × (request_metadata (pos 2) (client_of (answers 1 0 1 (codes "d1:xe.")))
      ≡ ok (codes "d1:xe.", d))
request_metadata-answers_example =
    request_metadata-answers (codes "d1:xe.") 1 (pos 2) (client_of (answers 1 0 1 (codes "d1:xe.")))
      (omega arith) (omega arith) short refl
