-- ===== src/Dht/Node/Tests.antt =====
-- Two nodes.
use bittorrent_client_go.Base.{◌≡◌, refl, List, [], ◌∷◌, codes, arith}
use bittorrent_client_go.Dht.Node.{Node, compact_nodes_encode, compact_nodes_decode}
use bittorrent_client_go.Dht.Node.Compact.{compact_nodes_decode-encode}

abbrev two_nodes : List Node
two_nodes =
    record { id = codes "0123456789abcdefghij"; ip = 10 ∷ 0 ∷ 0 ∷ 1 ∷ []; port = 6881 }
    ∷ record { id = codes "ABCDEFGHIJabcdefghij"; ip = 10 ∷ 0 ∷ 0 ∷ 2 ∷ []; port = 65535 }
    ∷ []

compact_nodes_decode-encode_example :
    compact_nodes_decode (compact_nodes_encode two_nodes) ≡ two_nodes
compact_nodes_decode-encode_example =
    compact_nodes_decode-encode two_nodes
      ((refl, refl, omega arith), ((refl, refl, omega arith), tt))
