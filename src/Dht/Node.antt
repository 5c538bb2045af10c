-- ===== src/Dht/Node.antt =====
-- dht/node.go: node IDs and their distance, and the compact encoding of nodes. An ID is the list of
-- its 20 bytes; a UDP address is a port and the bytes of an IPv4 address.
pub mod Compact
mod Tests
use Prim.Native.Nat.{bit_xor}
use bittorrent_client_go.Base.{
  ℕ, zero, suc, ◌+◌, ◌*◌, ◌/◌, ◌%◌, Bool, true, false, Option, none, some, List, [], ◌∷◌, ◌++◌,
  Bytes, ltb, if◌then◌else◌, take, drop, length,
}

pub record Node : Type 0 where
  pub id : Bytes
  pub ip : Bytes
  pub port : ℕ

-- `XORDistance`
unfoldable pub xor_distance : Bytes → Bytes → Bytes
xor_distance (a ∷ xs) (b ∷ ys) = bit_xor a b ∷ xor_distance xs ys
xor_distance _ _ = []

-- -1, 1 and 0 as `CompareDistance` returns them
pub data Nearer : Type 0 where
  first : Nearer
  second : Nearer
  neither : Nearer

-- The loop of `CompareDistance`
unfoldable pub compare_bytes : Bytes → Bytes → Nearer
compare_bytes (a ∷ xs) (b ∷ ys) =
    let rest = compare_bytes xs ys in if ltb a b then first else if ltb b a then second else rest
compare_bytes _ _ = neither

unfoldable pub compare_distance : Bytes → Bytes → Bytes → Nearer
unfolding xor_distance compare_bytes
compare_distance target a b = compare_bytes (xor_distance target a) (xor_distance target b)

-- `CompactNodesEncode`
unfoldable pub compact_nodes_encode : List Node → Bytes
compact_nodes_encode [] = []
compact_nodes_encode (n ∷ nodes) =
    n.id ++ (n.ip ++ ((n.port / 256 % 256) ∷ (n.port % 256) ∷ compact_nodes_encode nodes))

-- The port in the two bytes at the start
abbrev pub port_of : Bytes → ℕ
port_of (high ∷ low ∷ rest) = high * 256 + low
port_of _ = 0

abbrev pub read_node : Bytes → Node
read_node s = record { id = take 20 s; ip = take 4 (drop 20 s); port = port_of (drop 24 s) }

-- The loop of `CompactNodesDecode` from the index of a suffix on
unfoldable pub read_nodes : ℕ → Bytes → List Node
read_nodes zero s = []
read_nodes (suc fuel) s =
    let rest = read_nodes fuel (drop 26 s) in if ltb (length s) 26 then [] else read_node s ∷ rest

-- `CompactNodesDecode`; each node takes bytes, so that their number is enough fuel.
unfoldable pub compact_nodes_decode : Bytes → List Node
unfolding read_nodes
compact_nodes_decode s = read_nodes (length s) s
