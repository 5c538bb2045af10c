-- ===== src/Dht/Lookup.antt =====
-- dht/dht.go: the queries of a DHT node. What the socket's `ReadFromUDP` returns, call by call, is a
-- list; `reaches` says whether `WriteToUDP` to a node's address succeeds, and `random` gives the random
-- number of each query. A panic is that of the decoder.
pub mod Counts
pub mod Fresh
pub mod Once
mod Tests
use bittorrent_client_go.Base.{
  ℕ, zero, suc, ◌+◌, ◌-◌, ◌*◌, Bool, true, false, not, ◌&&◌, Option, none, some, List, [], ◌∷◌,
  ◌++◌, map, Bytes, bytes_eq, ltb, leb, ◌==◌, if◌then◌else◌, length, take, Result, ok, err, panic,
  ◌>>=◌,
}
use bittorrent_client_go.Base.Sorter.{Sorter}
use bittorrent_client_go.Dht.Node.{Node}
use bittorrent_client_go.Dht.Routing.{
  RoutingTable, add_node, find_closest, is_nearer, count_nodes, all_nodes,
}
use bittorrent_client_go.Dht.Routing.Buckets.{add_all}
use bittorrent_client_go.Dht.Krpc.Messages.{
  KrpcResponse, KrpcError, generate_transaction_id, build_find_node_query, build_get_peers_query,
  parse_krpc_response,
}
use bittorrent_client_go.Tracker.{Peer, read_peers}

pub data Received : Type 0 where
  datagram : Bytes → Received
  failed : Received

pub data LookupError : Type 0 where
  no_nodes no_peers not_bootstrapped : LookupError

-- The node's own state, what the socket will receive and what was sent, and the state of `GetPeers`
pub record Lookup : Type 0 where
  pub node_id : Bytes
  pub table : RoutingTable
  pub incoming : List Received
  pub sent : List (Node × Bytes)
  pub candidates : List Node
  pub queried : List Bytes
  pub all_peers : List Peer
  pub new_nodes_found : Bool

-- `alpha` and `maxIterations`, and the number of candidates that are kept
abbrev pub alpha : ℕ
alpha = 3

abbrev pub max_iterations : ℕ
max_iterations = 20

abbrev pub max_candidates : ℕ
max_candidates = 20

-- What becomes of one datagram in `readResponseForTransaction`: the response if it is the one awaited
abbrev pub awaited :
    Bytes → Result KrpcError KrpcResponse → Result LookupError (Option KrpcResponse)
awaited txn_id (ok resp) = ok (if bytes_eq resp.transaction_id txn_id then some resp else none)
awaited txn_id (err e) = ok none
awaited txn_id panic = panic

-- `readResponseForTransaction`, `none` for its error, and what is left to receive
unfoldable pub read_response_for :
    Bytes → List Received → Result LookupError (Option KrpcResponse × List Received)
read_response_for txn_id [] = ok (none, [])
read_response_for txn_id (failed ∷ incoming) = ok (none, incoming)
read_response_for txn_id (datagram s ∷ incoming) =
    let later = read_response_for txn_id incoming in
    awaited txn_id (parse_krpc_response (take 4096 s)) >>= λ found. elim found [
      | none ↦ later
      | some resp ↦ ok (some resp, incoming)
    ]

-- `queried[id]`
unfoldable pub has_id : Bytes → List Bytes → Bool
has_id id [] = false
has_id id (i ∷ ids) = if bytes_eq i id then true else has_id id ids

-- The closest `n` nodes that have not been queried yet
unfoldable pub to_query : ℕ → List Bytes → List Node → List Node
unfolding has_id
to_query zero queried nodes = []
to_query (suc n) queried [] = []
to_query (suc n) queried (node ∷ nodes) =
    let later = to_query (suc n) queried nodes in
    let rest = to_query n queried nodes in if has_id node.id queried then later else node ∷ rest

-- A node of a response: to the routing table, and to the candidates if it is not one of them
unfoldable pub add_candidate : Node → Lookup → Lookup
unfolding has_id
add_candidate n st =
    let known = has_id n.id (map (λ (c : Node). c.id) st.candidates) in
    record st {
      table = add_node n st.table;
      candidates = if known then st.candidates else st.candidates ++ (n ∷ []);
      new_nodes_found = if known then st.new_nodes_found else true;
    }

unfoldable pub add_candidates : List Node → Lookup → Lookup
unfolding add_candidate
add_candidates [] st = st
add_candidates (n ∷ nodes) st = add_candidates nodes (add_candidate n st)

-- The peers of all values
unfoldable pub peers_of : List Bytes → List Peer
unfolding read_peers
peers_of [] = []
peers_of (v ∷ vs) = read_peers v ++ peers_of vs

-- `GetPeers` on a response to a query of a node
unfoldable pub take_response : Node → KrpcResponse → Lookup → Lookup
unfolding add_candidates peers_of
take_response node resp st = add_candidates resp.nodes (record st {
  table = add_node (record { id = resp.id; ip = node.ip; port = node.port }) st.table;
  all_peers = st.all_peers ++ peers_of resp.values;
})

module _ (sorter : Sorter) (reaches : Node → Bool) (random : ℕ → ℕ) where
  -- A query to one node
  unfoldable pub query_node : Bytes → Node → Lookup → Result LookupError Lookup
  unfolding take_response read_response_for
  query_node info_hash node st =
      let txn_id = generate_transaction_id (random (length st.sent)) in
      let asked : Lookup = record st {
        queried = st.queried ++ (node.id ∷ []);
        sent = st.sent ++ ((node, build_get_peers_query txn_id st.node_id info_hash) ∷ []);
      } in
      let answered = read_response_for txn_id st.incoming >>= λ (found, incoming).
      let left : Lookup = record asked { incoming = incoming } in
      elim found [ none ↦ ok left | some resp ↦ ok (take_response node resp left) ] in
      if reaches node then answered else ok asked

  unfoldable pub query_nodes : Bytes → List Node → Lookup → Result LookupError Lookup
  unfolding query_node
  query_nodes info_hash [] st = ok st
  query_nodes info_hash (n ∷ nodes) st =
      query_node info_hash n st >>= λ next. query_nodes info_hash nodes next

  -- `Bootstrap` with one address, at the address that it resolves to; its ID is not known yet, and
  -- written as an empty one.
  unfoldable pub bootstrap_from : Option (Bytes × ℕ) → Lookup → Result LookupError Lookup
  unfolding read_response_for add_all
  bootstrap_from none st = ok st
  bootstrap_from (some (ip, port)) st =
      let txn_id = generate_transaction_id (random (length st.sent)) in
      let node : Node = record { id = []; ip = ip; port = port } in
      let asked : Lookup = record st {
        sent = st.sent ++ ((node, build_find_node_query txn_id st.node_id st.node_id) ∷ []);
      } in
      let answered = read_response_for txn_id st.incoming >>= λ (found, incoming).
      let left : Lookup = record asked { incoming = incoming } in
      elim found [
        | none ↦ ok left
        | some resp ↦ ok (record left {
          table =
              add_all resp.nodes
                (add_node (record { id = resp.id; ip = ip; port = port }) left.table);
        })
      ] in
      if reaches node then answered else ok asked

  unfoldable pub bootstrap_all : List (Option (Bytes × ℕ)) → Lookup → Result LookupError Lookup
  unfolding bootstrap_from
  bootstrap_all [] st = ok st
  bootstrap_all (a ∷ addresses) st = bootstrap_from a st >>= λ next. bootstrap_all addresses next

  -- `Bootstrap` by what the addresses resolve to
  unfoldable pub bootstrap : List (Option (Bytes × ℕ)) → Lookup → Result LookupError Lookup
  unfolding bootstrap_all
  bootstrap addresses st = bootstrap_all addresses st >>= λ done.
      if count_nodes done.table.buckets == 0 then err not_bootstrapped else ok done

  -- The end of a round: the closest candidates are kept, in order.
  unfoldable pub keep_closest : Bytes → Lookup → Lookup
  keep_closest target st = record st {
    candidates = take max_candidates (sorter.sort Node (is_nearer target) st.candidates);
  }

  -- The loop of `GetPeers`, for `n` rounds at most
  unfoldable pub rounds : ℕ → Bytes → Lookup → Result LookupError Lookup
  unfolding to_query query_nodes keep_closest
  rounds zero info_hash st = ok st
  rounds (suc n) info_hash st =
      let nodes = to_query alpha st.queried st.candidates in
      let asked = query_nodes info_hash nodes (record st { new_nodes_found = false }) in
      let next = asked >>= λ done.
      let closest = keep_closest info_hash done in
      let more = rounds n info_hash closest in
      if not closest.new_nodes_found && ltb (length nodes) alpha then ok closest else more in
      if length nodes == 0 then ok st else next

  -- `GetPeers`: the peers, and the state that is left
  unfoldable pub get_peers : Bytes → Lookup → Result LookupError (List Peer × Lookup)
  unfolding rounds
  get_peers info_hash st =
      let candidates = find_closest sorter info_hash max_candidates st.table in
      let start : Lookup = record st { candidates = candidates; queried = []; all_peers = [] } in
      let found = rounds max_iterations info_hash start >>= λ done.
      if length done.all_peers == 0 then err no_peers else ok (done.all_peers, done) in
      if length candidates == 0 then err no_nodes else found
