-- ===== src/Tracker/Udp/Tests.antt =====
-- A tracker that answers the connect request at the second try, with two peers.
use bittorrent_client_go.Base.{
  ◌≡◌, ◌+◌, refl, List, [], ◌∷◌, ◌++◌, Bytes, codes, replicate, ok, err, arith, length,
}
use bittorrent_client_go.Tracker.{Peer}
use bittorrent_client_go.Tracker.Udp.{
  datagram, timed_out, failed, transaction_mismatch, no_answer, tracker_error, connect_request,
  read_connect, read_announce, exchange, announce_request, get_peers_udp,
}
use bittorrent_client_go.Tracker.Udp.Answers.{
  connect_response, announce_response, repeat, get_peers_udp-answers,
}

abbrev peers : List Peer
peers =
    record { ip = 10 ∷ 0 ∷ 0 ∷ 1 ∷ []; port = 6881 }
    ∷ record { ip = 10 ∷ 0 ∷ 0 ∷ 2 ∷ []; port = 51413 }
    ∷ []

abbrev info_hash : Bytes
info_hash = codes "abcdefghijklmnopqrst"

other_transaction : read_connect 8 (connect_response 7 5) ≡ err transaction_mismatch
unfolding read_connect
other_transaction = refl

refused :
    read_announce 9 (0 ∷ 0 ∷ 0 ∷ 3 ∷ codes "----no such torrent")
    ≡ err (tracker_error (codes "no such torrent"))
unfolding read_announce
refused = refl

request_length : length (announce_request 9 1 5 (codes "short") 100) ≡ 98
unfolding announce_request
request_length = refl

silent :
    exchange 2 16 (codes "?") (timed_out ∷ timed_out ∷ failed ∷ []) ≡ (codes "??", err no_answer)
unfolding exchange
silent = refl

get_peers_udp-answers_example :
    get_peers_udp 7 9 1 info_hash 100 (
      replicate 1 timed_out
      ++ (datagram (connect_response 7 5)
          ∷ (replicate 0 timed_out ++ (datagram (announce_response 9 1800 1 2 peers) ∷ []))))
    ≡ (
      repeat (1 + 1) (connect_request 7) ++ repeat (0 + 1) (announce_request 9 1 5 info_hash 100),
      ok peers,
    )
get_peers_udp-answers_example =
    get_peers_udp-answers 7 9 1 100 5 1800 1 2 1 0 info_hash peers [] (omega arith) (omega arith)
      (omega arith) (omega arith) (omega arith) ((refl, omega arith), ((refl, omega arith), tt))
      (omega arith)
