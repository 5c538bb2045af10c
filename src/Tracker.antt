-- ===== src/Tracker.antt =====
-- The tracker directory: a peer's address, and the compact form in which trackers (tracker/tracker.go,
-- tracker/udp.go) and DHT nodes (dht/dht.go) send lists of peers.
pub mod Udp
pub mod Http
use bittorrent_client_go.Base.{ℕ, List, [], ◌∷◌, Bytes, u16_of}

pub record Peer : Type 0 where
  pub ip : Bytes
  pub port : ℕ

-- The loops over six bytes for each peer; fewer at the end are left out.
unfoldable pub read_peers : Bytes → List Peer
read_peers (a ∷ b ∷ c ∷ d ∷ e ∷ f ∷ rest) =
    record { ip = a ∷ b ∷ c ∷ d ∷ []; port = u16_of e f } ∷ read_peers rest
read_peers _ = []
