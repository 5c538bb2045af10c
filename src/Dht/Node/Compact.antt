-- ===== src/Dht/Node/Compact.antt =====
-- The compact encoding of nodes and back.
use bittorrent_client_go.Base.{
  take-front, drop-front, drop-drop, ℕ, zero, suc, ◌+◌, ◌*◌, ◌/◌, ◌%◌, ◌≤◌, ◌<◌, ◌≡◌, refl, ap, ◌∙◌,
  sym, false, List, [], ◌∷◌, ◌++◌, ltb, length, length-append, drop, All, arith,
}
use bittorrent_client_go.Dht.Node.{
  Node, compact_nodes_encode, read_nodes, read_node, compact_nodes_decode,
}

-- An ID of 20 bytes, an IPv4 address and a 16-bit port.
abbrev pub IsCompact : Node → Type 0
IsCompact n = (length n.id ≡ 20) × (length n.ip ≡ 4) × (n.port < 65536)

read_node-encode :
    (n : Node) (nodes : List Node)
    → IsCompact n
    → (read_node (compact_nodes_encode (n ∷ nodes)) ≡ n)
      × (drop 26 (compact_nodes_encode (n ∷ nodes)) ≡ compact_nodes_encode nodes)
      × (length (compact_nodes_encode (n ∷ nodes)) ≡ 26 + length (compact_nodes_encode nodes))
unfolding compact_nodes_encode
read_node-encode n nodes (id_size, ip_size, port_size) =
    let tail = (n.port / 256 % 256) ∷ (n.port % 256) ∷ compact_nodes_encode nodes in
    let first = take-front 20 n.id (n.ip ++ tail) id_size in
    let behind = drop-front 20 n.id (n.ip ++ tail) id_size in
    let second = take-front 4 n.ip tail ip_size in
    let last : drop 24 (n.id ++ (n.ip ++ tail)) ≡ tail =
      sym (drop-drop 20 4 (n.id ++ (n.ip ++ tail)))
      ∙ ap (λ s. drop 4 s) behind
      ∙ drop-front 4 n.ip tail ip_size in
    let port : n.port / 256 % 256 * 256 + n.port % 256 ≡ n.port = omega arith in
    let rest = sym (drop-drop 24 2 (n.id ++ (n.ip ++ tail))) ∙ ap (λ s. drop 2 s) last in
    (
      rw (first, behind, second, last, port) refl,
      rest,
      omega (arith, length-append n.id (n.ip ++ tail), length-append n.ip tail),
    )

read_nodes-encode :
    (fuel : ℕ) (nodes : List Node)
    → All IsCompact nodes
    → length (compact_nodes_encode nodes) ≤ fuel
    → read_nodes fuel (compact_nodes_encode nodes) ≡ nodes
unfolding read_nodes compact_nodes_encode
read_nodes-encode zero [] h le = refl
read_nodes-encode (suc fuel) [] h le = refl
read_nodes-encode zero (n ∷ nodes) h le =
    absurd (omega (arith, (read_node-encode n nodes h.0).2, le))
read_nodes-encode (suc fuel) (n ∷ nodes) h le =
    let (node, rest, size) = read_node-encode n nodes h.0 in
    let long : ltb (length (compact_nodes_encode (n ∷ nodes))) 26 ≡ false = ground arith in
    let ih = read_nodes-encode fuel nodes h.1 (omega (arith, size, le)) in
    rw (long, node, rest, ih) refl

-- Nodes whose IDs have 20 bytes, whose addresses are IPv4 and whose ports have 16 bits are read back
-- from their compact encoding as they were, in order.
pub compact_nodes_decode-encode :
    (nodes : List Node)
    → All IsCompact nodes
    → compact_nodes_decode (compact_nodes_encode nodes) ≡ nodes
unfolding compact_nodes_decode
compact_nodes_decode-encode nodes h =
    read_nodes-encode (length (compact_nodes_encode nodes)) nodes h (omega arith)
