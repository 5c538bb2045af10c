-- ===== src/Dht/Lookup/Tests.antt =====
-- A lookup in a network of one node, which answers with one peer.
use bittorrent_client_go.Base.{
  ℕ, ◌≡◌, ◌≤◌, ◌+◌, refl, Bool, true, false, List, [], ◌∷◌, ◌++◌, Bytes, codes, length, replicate,
  ok, err, panic, bytes_eq,
}
use bittorrent_client_go.Base.Sorter.Insertion.{insertion_sorter, insertion_sort}
use bittorrent_client_go.Bencode.{decode, decode_string, decode_value, get, get_raw}
use bittorrent_client_go.Bencode.Number.{print_nat, atoi}
use bittorrent_client_go.Tracker.{Peer}
use bittorrent_client_go.Dht.Krpc.{encode}
use bittorrent_client_go.Dht.Krpc.Messages.{
  parse_krpc_response, generate_transaction_id, build_get_peers_query,
}
use bittorrent_client_go.Dht.Node.{Node, xor_distance}
use bittorrent_client_go.Dht.Routing.{RoutingTable, add_node, new_routing_table, find_closest}
use bittorrent_client_go.Dht.Lookup.{datagram, Lookup, get_peers, has_id, read_response_for}
use bittorrent_client_go.Dht.Routing.Unique.{times}
use bittorrent_client_go.Dht.Routing.Buckets.{add_all}
use bittorrent_client_go.Dht.Lookup.Counts.{asked_ids}
use bittorrent_client_go.Dht.Lookup.Once.{get_peers-once}

abbrev self_id : Bytes
self_id = replicate 20 0

abbrev node : Node
node = record { id = codes "abcdefghij0123456789"; ip = 10 ∷ 0 ∷ 0 ∷ 1 ∷ []; port = 6881 }

abbrev table : RoutingTable
table = add_all (node ∷ []) (new_routing_table self_id)

-- A reply to another transaction comes first.
abbrev reply : Bytes → Bytes
reply txn_id =
    codes "d1:rd2:id20:abcdefghij01234567896:valuesl6:abcdefee1:t1:" ++ (txn_id ++ codes "1:y1:re")

abbrev start : Lookup
start = record {
  node_id = self_id;
  table = table;
  incoming =
      datagram (reply (codes "8")) ∷ datagram (codes "no") ∷ datagram (reply (codes "7")) ∷ [];
  sent = [];
  candidates = [];
  queried = [];
  all_peers = [];
  new_nodes_found = false;
}

abbrev always : Node → Bool
always n = true

abbrev seven : ℕ → ℕ
seven n = 7

-- What the lookup leaves, or the start
abbrev outcome : List Peer × Lookup
outcome = elim (get_peers insertion_sorter always seven self_id start) [
  | ok r ↦ r
  | err e ↦ ([], start)
  | panic ↦ ([], start)
]

found : get_peers insertion_sorter always seven self_id start ≡ ok outcome
unfolding get_peers find_closest insertion_sort add_all add_node parse_krpc_response decode_value
    get get_raw bytes_eq has_id read_response_for generate_transaction_id build_get_peers_query
    print_nat encode xor_distance decode decode_string atoi
found = refl

one_peer : outcome.0 ≡ record { ip = codes "abcd"; port = 25958 } ∷ []
unfolding get_peers find_closest insertion_sort add_all add_node parse_krpc_response decode_value
    get get_raw bytes_eq has_id read_response_for generate_transaction_id build_get_peers_query
    print_nat encode xor_distance decode decode_string atoi
one_peer = refl

get_peers-once_example :
    (length outcome.1.sent ≤ length start.sent + 60)
    × ((id : Bytes) → times id (asked_ids outcome.1) ≤ times id (asked_ids start) + 1)
get_peers-once_example =
    get_peers-once insertion_sorter always seven self_id self_id (node ∷ []) start outcome.1
      outcome.0 refl found
