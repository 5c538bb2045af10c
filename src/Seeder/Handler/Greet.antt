-- ===== src/Seeder/Handler/Greet.antt =====
-- The handshakes at the beginning of a connection to the seeder.
use bittorrent_client_go.Base.{
  ℕ, ◌<◌, ◌≡◌, refl, false, List, ◌++◌, append-nil, append_assoc, Bytes, bytes_eq_refl, length, err,
}
use bittorrent_client_go.Peer.Message.{end_of_stream, write_message}
use bittorrent_client_go.Peer.Message.RoundTrip.{read_full-short}
use bittorrent_client_go.Peer.Handshake.{build_handshake, do_handshake}
use bittorrent_client_go.Peer.Handshake.Wire.{Hello, IsHello, hello_bytes, do_handshake-hello_bytes}
use bittorrent_client_go.Seeder.Storage.{build_bitfield}
use bittorrent_client_go.Seeder.Handler.{closed, served, serve, handle_peer}

do_handshake-short : (s : Bytes) → length s < 68 → do_handshake s ≡ err end_of_stream
unfolding do_handshake
do_handshake-short s h = rw (read_full-short 68 s h) refl

-- To a peer that sends any handshake with the right info hash, whatever its ID and flags, and then fewer
-- than 68 bytes until the stream ends, the seeder sends its own handshake and nothing else, whatever
-- those bytes ask for, and closes the connection.
pub handle_peer-short :
    (fuel : ℕ) (h : Hello) (pieces : List Bytes) (n : ℕ) (asked : Bytes)
    → IsHello h
    → length asked < 68
    → handle_peer fuel h.info_hash pieces n (hello_bytes h ++ asked)
      ≡ record { sent = build_handshake h.info_hash false; ending = closed }
unfolding handle_peer
handle_peer-short fuel h pieces n asked s short =
    rw ((do_handshake-hello_bytes h asked s).1, handle_peer)
      (rw (bytes_eq_refl h.info_hash, do_handshake-short asked short)
        (rw (append-nil (build_handshake h.info_hash false)) refl))

-- To a peer that sends a handshake twice, the second one with any info hash, the seeder sends a handshake
-- and its bitfield, and then serves what follows.
pub handle_peer-twice :
    (fuel : ℕ) (h again : Hello) (pieces : List Bytes) (n : ℕ) (asked : Bytes)
    → IsHello h
    → IsHello again
    → handle_peer fuel h.info_hash pieces n (hello_bytes h ++ (hello_bytes again ++ asked))
      ≡ served
          (build_handshake h.info_hash false ++ write_message 5 (build_bitfield n))
          (serve fuel pieces false asked)
unfolding handle_peer
handle_peer-twice fuel h again pieces n asked s t =
    rw ((do_handshake-hello_bytes h (hello_bytes again ++ asked) s).1, handle_peer)
      (rw (bytes_eq_refl h.info_hash, (do_handshake-hello_bytes again asked t).0)
        (rw
          (append_assoc (build_handshake h.info_hash false) (write_message 5 (build_bitfield n))
            (serve fuel pieces false asked).sent)
          refl))
