-- ===== src/Dht/Routing/Tests.antt =====
-- A table with two nodes, one of them added twice.
use bittorrent_client_go.Base.{◌≡◌, refl, Bytes, bytes_eq, [], ◌∷◌, replicate}
use bittorrent_client_go.Dht.Node.{Node, xor_distance}
use bittorrent_client_go.Dht.Routing.{
  new_routing_table, leading_zeros, index_from, bucket_index, refresh, add_to, add_node,
  count_nodes,
}
use bittorrent_client_go.Dht.Routing.Buckets.{IsTable, add_all, new_routing_table-IsTable}

abbrev zero_id : Bytes
zero_id = replicate 20 0

abbrev near_node : Node
near_node = record { id = 0 ∷ 32 ∷ replicate 18 0; ip = 10 ∷ 0 ∷ 0 ∷ 1 ∷ []; port = 6881 }

abbrev far_node : Node
far_node = record { id = 128 ∷ replicate 19 0; ip = 10 ∷ 0 ∷ 0 ∷ 2 ∷ []; port = 6881 }

near_index : bucket_index zero_id near_node.id ≡ 10
unfolding bucket_index index_from leading_zeros xor_distance
near_index = refl

added_twice :
    count_nodes
      (add_all (near_node ∷ far_node ∷ near_node ∷ []) (new_routing_table zero_id)).buckets
    ≡ 2
unfolding add_all add_node add_to refresh bucket_index index_from leading_zeros xor_distance
    bytes_eq count_nodes
added_twice = refl

new_routing_table-IsTable_example :
    IsTable zero_id (add_all (near_node ∷ far_node ∷ []) (new_routing_table zero_id))
new_routing_table-IsTable_example = new_routing_table-IsTable zero_id (near_node ∷ far_node ∷ [])
