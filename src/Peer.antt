-- ===== src/Peer.antt =====
-- The peer directory: the pool of endpoints (Pool), the message framing (Message), the handshake
-- (Handshake), and a connection, driven by one goroutine (Client) or by its own loops (Pipeline).
pub mod Pool
pub mod Message
pub mod Handshake
pub mod Client
pub mod Pipeline
