-- ===== src/Dht.antt =====
-- The dht directory: node IDs and compact node lists (Node), the routing table (Routing), and the
-- bencode encoder with the KRPC messages (Krpc), and the lookup of peers (Lookup).
pub mod Krpc
pub mod Node
pub mod Routing
pub mod Lookup
