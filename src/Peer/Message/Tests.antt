-- ===== src/Peer/Message/Tests.antt =====
-- A message on a connection.
use bittorrent_client_go.Base.{◌≡◌, refl, none, [], ◌∷◌, ok, err}
use bittorrent_client_go.Peer.Message.{end_of_stream, read_full, read_body, read_message}

keepalive : read_message (0 ∷ 0 ∷ 0 ∷ 0 ∷ 7 ∷ []) ≡ ok (record { id = 0; payload = none }, 7 ∷ [])
unfolding read_message read_full read_body
keepalive = refl

truncated : read_message (0 ∷ 0 ∷ 0 ∷ 2 ∷ 7 ∷ []) ≡ err end_of_stream
unfolding read_message read_full read_body
truncated = refl
