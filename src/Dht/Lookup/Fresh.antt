-- ===== src/Dht/Lookup/Fresh.antt =====
-- The invariant of a lookup, and that each part of a round keeps it.
use bittorrent_client_go.Base.{
  ℕ, ◌+◌, ◌≤◌, ◌≡◌, ap, ◌∙◌, Bool, Bool-cases, inl, inr, Option, none, some, List, [], ◌∷◌, ◌++◌,
  Bytes, length, length-append, Result, ok, err, panic, Post, bind-Post, if-Post, arith,
}
use bittorrent_client_go.Base.Sorter.{Sorter}
use bittorrent_client_go.Dht.Node.{Node}
use bittorrent_client_go.Dht.Routing.Unique.{times, ids_of, times-append, map-append}
use bittorrent_client_go.Dht.Krpc.Messages.{
  KrpcResponse, generate_transaction_id, build_get_peers_query,
}
use bittorrent_client_go.Dht.Lookup.{
  Received, LookupError, Lookup, read_response_for, has_id, add_candidate, add_candidates,
  take_response, query_node, query_nodes,
}
use bittorrent_client_go.Dht.Lookup.Counts.{asked_ids, append-distinct}

-- The state of a lookup before these nodes are asked, with the number of times that each ID was asked
-- before the lookup
pub record IsFresh (base : Bytes → ℕ) (limit : ℕ) (nodes : List Node) (st : Lookup) : Type 0 where
  pub within : length st.sent + length nodes ≤ limit
  pub once : (id : Bytes) → times id st.queried + times id (ids_of nodes) ≤ 1
  pub distinct : (id : Bytes) → times id (ids_of st.candidates) ≤ 1
  pub logged : (id : Bytes) → times id (asked_ids st) ≡ base id + times id st.queried

pub add_candidate-IsFresh :
    (base : Bytes → ℕ) (limit : ℕ) (nodes : List Node) (n : Node) (st : Lookup)
    → IsFresh base limit nodes st
    → IsFresh base limit nodes (add_candidate n st)
unfolding add_candidate
add_candidate-IsFresh base limit nodes n st f =
    elim (Bool-cases (has_id n.id (ids_of st.candidates))) [
      | inl known ↦
          rw known
            (record { once = f.once; distinct = f.distinct; logged = f.logged; within = f.within })
      | inr young ↦ rw young (record {
        once = f.once;
        distinct = λ id. append-distinct n st.candidates young id (f.distinct id);
        logged = f.logged;
        within = f.within;
      })
    ]

pub add_candidates-IsFresh :
    (base : Bytes → ℕ) (limit : ℕ) (nodes ns : List Node) (st : Lookup)
    → IsFresh base limit nodes st
    → IsFresh base limit nodes (add_candidates ns st)
unfolding add_candidates
add_candidates-IsFresh base limit nodes [] st f = f
add_candidates-IsFresh base limit nodes (n ∷ ns) st f =
    add_candidates-IsFresh base limit nodes ns (add_candidate n st)
      (add_candidate-IsFresh base limit nodes n st f)

pub take_response-IsFresh :
    (base : Bytes → ℕ) (limit : ℕ) (nodes : List Node) (node : Node) (resp : KrpcResponse)
    (st : Lookup)
    → IsFresh base limit nodes st
    → IsFresh base limit nodes (take_response node resp st)
unfolding take_response
take_response-IsFresh base limit nodes node resp st f =
    add_candidates-IsFresh base limit nodes resp.nodes _
      (record { once = f.once; distinct = f.distinct; logged = f.logged; within = f.within })

-- The log with one query more
pub asked-IsFresh :
    (base : Bytes → ℕ) (limit : ℕ) (node : Node) (nodes : List Node) (packet : Bytes) (st : Lookup)
    → IsFresh base limit (node ∷ nodes) st
    → IsFresh base limit nodes (record st {
      queried = st.queried ++ (node.id ∷ []);
      sent = st.sent ++ ((node, packet) ∷ []);
    })
unfolding times
asked-IsFresh base limit node nodes packet st f = record {
  within = omega (arith, f.within, length-append st.sent ((node, packet) ∷ []));
  once = λ id. ground (arith, times-append id st.queried (node.id ∷ []), f.once id);
  distinct = f.distinct;
  logged = λ id.
      ap (times id) (map-append (λ (s : Node × Bytes). s.0.id) st.sent ((node, packet) ∷ []))
      ∙ times-append id (asked_ids st) (node.id ∷ [])
      ∙ ap (λ k. k + times id (node.id ∷ [])) (f.logged id)
      ∙ omega (arith, times-append id st.queried (node.id ∷ []));
}

-- What holds of a value that is returned
abbrev pub OnOk : {A : Type 0} → (A → Type 0) → Result LookupError A → Type 0
OnOk P r = Post P (λ e. Unit) r

pub any_result : {A : Type 0} (r : Result LookupError A) → OnOk (λ a. Unit) r
any_result (ok a) = tt
any_result (err e) = tt
any_result panic = tt

module _ (sorter : Sorter) (reaches : Node → Bool) (random : ℕ → ℕ) (base : Bytes → ℕ) where
  pub query_node-IsFresh :
      (limit : ℕ) (info_hash : Bytes) (node : Node) (nodes : List Node) (st : Lookup)
      → IsFresh base limit (node ∷ nodes) st
      → OnOk (IsFresh base limit nodes) (query_node sorter reaches random info_hash node st)
  unfolding query_node
  query_node-IsFresh limit info_hash node nodes st f =
      let txn_id = generate_transaction_id (random (length st.sent)) in
      let packet = build_get_peers_query txn_id st.node_id info_hash in
      let asked : Lookup = record st {
        queried = st.queried ++ (node.id ∷ []);
        sent = st.sent ++ ((node, packet) ∷ []);
      } in
      let g = asked-IsFresh base limit node nodes packet st f in
      if-Post (IsFresh base limit nodes) (λ e. Unit) (reaches node) _ (ok asked)
        (bind-Post (λ r. Unit) (IsFresh base limit nodes) (λ e. Unit)
          (read_response_for txn_id st.incoming) _ (any_result _)
          (λ (found, incoming) u. after asked found incoming g))
        g
    where
      after :
          (asked : Lookup) (found : Option KrpcResponse) (incoming : List Received)
          → IsFresh base limit nodes asked
          → OnOk (IsFresh base limit nodes) (elim found [
            | none ↦ ok (record asked { incoming = incoming })
            | some resp ↦ ok (take_response node resp (record asked { incoming = incoming }))
          ])
      after asked none incoming g = record {
        once = g.once;
        distinct = g.distinct;
        logged = g.logged;
        within = g.within;
      }
      after asked (some resp) incoming g =
          take_response-IsFresh base limit nodes node resp (record asked { incoming = incoming })
            (record { once = g.once; distinct = g.distinct; logged = g.logged; within = g.within })

  pub query_nodes-IsFresh :
      (limit : ℕ) (info_hash : Bytes) (nodes : List Node) (st : Lookup)
      → IsFresh base limit nodes st
      → OnOk (IsFresh base limit []) (query_nodes sorter reaches random info_hash nodes st)
  unfolding query_nodes
  query_nodes-IsFresh limit info_hash [] st f = f
  query_nodes-IsFresh limit info_hash (n ∷ nodes) st f =
      bind-Post (IsFresh base limit nodes) (IsFresh base limit []) (λ e. Unit)
        (query_node sorter reaches random info_hash n st) _
        (query_node-IsFresh limit info_hash n nodes st f)
        (λ next g. query_nodes-IsFresh limit info_hash nodes next g)
