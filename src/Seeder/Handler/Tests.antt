-- ===== src/Seeder/Handler/Tests.antt =====
-- A seeder of one piece of six bytes.
use bittorrent_client_go.Base.{
  replicate, ◌≡◌, ◌≢◌, refl, ◌++◌, true, false, Bytes, List, [], ◌∷◌, codes, ok, panic, put_u32,
  arith, ℕ, ◌+◌,
}
use bittorrent_client_go.Peer.Message.{write_message}
use bittorrent_client_go.Peer.Handshake.{build_handshake}
use bittorrent_client_go.Seeder.Handler.{
  closed, out_of_fuel, serve, served, handle_message, handle_peer, replies, handle,
}
use bittorrent_client_go.Seeder.Handler.Serve.{
  request_payload, handle_message-request, handle_message_panic, messages, wire, serve-wire,
}
use bittorrent_client_go.Seeder.Handler.Fuel.{serve-ends}
use bittorrent_client_go.Peer.Handshake.Wire.{Hello, hello_bytes}
use bittorrent_client_go.Seeder.Handler.Greet.{handle_peer-short}

abbrev one_piece : List Bytes
one_piece = codes "abcdef" ∷ []

abbrev some_hash : Bytes
some_hash = codes "0123456789abcdefghij"

abbrev two_messages : List (ℕ × Bytes)
two_messages = (2, []) ∷ (3, []) ∷ []

handle_message-request_example :
    handle_message one_piece true 6 (request_payload 0 2 3)
    ≡ ok (true, write_message 7 (put_u32 0 ++ (put_u32 2 ++ codes "cde")))
handle_message-request_example =
    handle_message-request one_piece 0 2 3 (codes "abcdef") (omega arith) refl (omega arith)
      (omega arith)

handle_message_panic_example :
    handle_message one_piece true 6 (request_payload 0 4294967295 2) ≡ panic
handle_message_panic_example =
    handle_message_panic one_piece 0 4294967295 2 (codes "abcdef") (omega arith) (omega arith)
      (omega arith) refl (omega arith) (omega arith)

serve-wire_example :
    serve (2 + 1) one_piece false (wire two_messages ++ codes "end")
    ≡ served (write_message 1 [] ++ write_message 0 []) (serve 1 one_piece false (codes "end"))
unfolding replies handle handle_message messages write_message
serve-wire_example =
    serve-wire one_piece false false two_messages (write_message 1 [] ++ write_message 0 [])
      (codes "end") 1 (omega arith, (omega arith, tt)) refl

serve-ends_example : (serve 10 one_piece false (codes "some")).ending ≢ out_of_fuel
serve-ends_example = serve-ends 10 one_piece false (codes "some") (omega arith)

-- A peer with another ID, and without extensions
abbrev other_client : Hello
other_client = record {
  name = 19 ∷ codes "BitTorrent protocol";
  five = replicate 5 0;
  flags = 1;
  two = 0 ∷ 5 ∷ [];
  info_hash = some_hash;
  peer_id = codes "-XX0001-abcdefghijkl";
}

handle_peer-short_example :
    handle_peer 100 some_hash one_piece 1 (hello_bytes other_client ++ write_message 2 [])
    ≡ record { sent = build_handshake some_hash false; ending = closed }
unfolding write_message
handle_peer-short_example =
    handle_peer-short 100 other_client one_piece 1 (write_message 2 [])
      (record {
        name_size = refl;
        five_size = refl;
        flags_byte = omega arith;
        two_size = refl;
        hash_size = refl;
        id_size = refl;
      })
      (omega arith)
