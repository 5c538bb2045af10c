-- ===== src/Peer/Handshake/Tests.antt =====
-- A handshake of another client, with every flag set.
use bittorrent_client_go.Base.{◌∷◌, [], codes}
use bittorrent_client_go.Peer.Handshake.Wire.{Hello}

abbrev other_client : Hello
other_client = record {
  name = 19 ∷ codes "BitTorrent protocol";
  five = 0xff ∷ 0xff ∷ 0xff ∷ 0xff ∷ 0xff ∷ [];
  flags = 0xff;
  two = 0xff ∷ 0xff ∷ [];
  info_hash = codes "0123456789abcdefghij";
  peer_id = codes "-XX0001-abcdefghijkl";
}
