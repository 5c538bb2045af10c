-- ===== src/Dht/Routing.antt =====
-- dht/routing.go: the routing table. The lock that each method holds makes it one step.
pub mod Buckets
pub mod Unique
mod Tests
use Prim.Native.Nat.{bit_and}
use bittorrent_client_go.Base.{
  ℕ, zero, suc, ◌+◌, ◌-◌, ◌*◌, ◌^◌, Bool, true, false, Option, none, some, List, [], ◌∷◌, ◌++◌,
  Bytes, bytes_eq, ltb, ◌==◌, if◌then◌else◌, length, take, get_or, set, replicate,
}
use mathlib.Core.Option
use bittorrent_client_go.Base.Sorter.{Sorter}
use bittorrent_client_go.Dht.Node.{
  Node, Nearer, first, second, neither, xor_distance, compare_distance,
}

pub record RoutingTable : Type 0 where
  pub self_id : Bytes
  pub buckets : List (List Node)

abbrev pub bucket_size : ℕ
bucket_size = 8

abbrev pub num_buckets : ℕ
num_buckets = 160

-- `NewRoutingTable`
abbrev pub new_routing_table : Bytes → RoutingTable
new_routing_table self_id = record { self_id = self_id; buckets = replicate num_buckets [] }

-- The inner loop of `bucketIndex`, for the bits below `bit`: `7 - bit` for the first bit that is set
unfoldable pub leading_zeros : ℕ → ℕ → Option ℕ
leading_zeros zero d = none
leading_zeros (suc bit) d =
    let rest = leading_zeros bit d in if bit_and d (2 ^ bit) == 0 then rest else some (7 - bit)

-- The outer loop, from the byte `i` on
unfoldable pub index_from : ℕ → Bytes → ℕ
unfolding leading_zeros
index_from i [] = num_buckets - 1
index_from i (d ∷ dist) =
    let rest = index_from (i + 1) dist in
    elim (leading_zeros 8 d) [ none ↦ rest | some zeros ↦ i * 8 + zeros ]

unfoldable pub bucket_index : Bytes → Bytes → ℕ
unfolding index_from
bucket_index self_id id = index_from 0 (xor_distance self_id id)

-- The bucket with the node moved to its end, if it has a node of that ID
unfoldable pub refresh : Node → List Node → Option (List Node)
refresh node [] = none
refresh node (n ∷ bucket) =
    let rest = refresh node bucket in
    if bytes_eq n.id node.id then some (bucket ++ (node ∷ [])) else Option.map (λ b. n ∷ b) rest

-- The new contents of a node's bucket
unfoldable pub add_to : Node → List Node → List Node
unfolding refresh
add_to node bucket = elim (refresh node bucket) [
  | some moved ↦ moved
  | none ↦ if ltb (length bucket) bucket_size then bucket ++ (node ∷ []) else bucket
]

-- `Add`
unfoldable pub add_node : Node → RoutingTable → RoutingTable
unfolding bucket_index add_to
add_node node rt =
    let idx = bucket_index rt.self_id node.id in
    if bytes_eq node.id rt.self_id
    then rt
    else record rt { buckets = set rt.buckets idx (add_to node (get_or rt.buckets idx [])) }

unfoldable pub all_nodes : List (List Node) → List Node
all_nodes [] = []
all_nodes (bucket ∷ buckets) = bucket ++ all_nodes buckets

abbrev pub is_nearer : Bytes → Node → Node → Bool
is_nearer target a b = elim (compare_distance target a.id b.id) [
  | first ↦ true
  | second ↦ false
  | neither ↦ false
]

-- `FindClosest`
unfoldable pub find_closest : Sorter → Bytes → ℕ → RoutingTable → List Node
unfolding all_nodes
find_closest s target count rt = take count (s.sort Node (is_nearer target) (all_nodes rt.buckets))

-- `Count`
unfoldable pub count_nodes : List (List Node) → ℕ
count_nodes [] = 0
count_nodes (bucket ∷ buckets) = length bucket + count_nodes buckets
