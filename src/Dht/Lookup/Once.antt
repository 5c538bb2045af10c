-- ===== src/Dht/Lookup/Once.antt =====
-- No node is asked twice in a lookup.
use bittorrent_client_go.Base.{
  ℕ, zero, suc, ◌+◌, ◌*◌, ◌≤◌, ◌≡◌, Bool, false, not, ◌&&◌, Bool-cases, inl, inr, List, [], Bytes,
  ltb, ◌==◌, length, ok, err, bind-Post, if-Post, arith,
}
use bittorrent_client_go.Base.Sorter.{Sorter}
use bittorrent_client_go.Dht.Node.{Node}
use bittorrent_client_go.Dht.Routing.{new_routing_table, all_nodes, find_closest}
use bittorrent_client_go.Dht.Routing.Buckets.{add_all}
use bittorrent_client_go.Dht.Routing.Unique.{times, ids_of, new_routing_table_unique}
use bittorrent_client_go.Tracker.{Peer}
use bittorrent_client_go.Dht.Lookup.{
  no_nodes, no_peers, Lookup, alpha, max_iterations, max_candidates, has_id, to_query, query_nodes,
  keep_closest, rounds, get_peers,
}
use bittorrent_client_go.Dht.Lookup.Counts.{
  to_query-new, asked_ids, has_id-times, keep-times, to_query-times, to_query-length,
}
use bittorrent_client_go.Dht.Lookup.Fresh.{OnOk, query_nodes-IsFresh, IsFresh}

module _ (sorter : Sorter) (reaches : Node → Bool) (random : ℕ → ℕ) (base : Bytes → ℕ) where
  -- The nodes that a round picks are new.
  to_query-IsFresh :
      (limit : ℕ) (st : Lookup)
      → IsFresh base limit [] st
      → IsFresh base
          (limit + alpha)
          (to_query alpha st.queried st.candidates)
          (record st { new_nodes_found = false })
  unfolding times
  to_query-IsFresh limit st f = record {
    within = omega (arith, f.within, to_query-length alpha st.queried st.candidates);
    once = λ id. elim (Bool-cases (has_id id st.queried)) [
      | inl old ↦ omega (arith, to_query-new id alpha st.queried st.candidates old, f.once id)
      | inr young ↦ omega (
        arith,
        has_id-times id st.queried young,
        to_query-times id alpha st.queried st.candidates,
        f.distinct id,
      )
    ];
    distinct = f.distinct;
    logged = f.logged;
  }

  relaxed :
      (limit more : ℕ) (st : Lookup)
      → limit ≤ more
      → IsFresh base limit [] st
      → IsFresh base more [] st
  relaxed limit more st h f = record {
    within = omega (arith, f.within, h);
    once = f.once;
    distinct = f.distinct;
    logged = f.logged;
  }

  keep_closest-IsFresh :
      (limit : ℕ) (target : Bytes) (st : Lookup)
      → IsFresh base limit [] st
      → IsFresh base limit [] (keep_closest sorter reaches random target st)
  unfolding keep_closest
  keep_closest-IsFresh limit target st f = record {
    within = f.within;
    once = f.once;
    distinct = λ id.
        omega (arith, keep-times sorter target id max_candidates st.candidates, f.distinct id);
    logged = f.logged;
  }

  rounds-IsFresh :
      (n limit : ℕ) (info_hash : Bytes) (st : Lookup)
      → IsFresh base limit [] st
      → OnOk (IsFresh base (limit + 3 * n) []) (rounds sorter reaches random n info_hash st)
  unfolding rounds
  rounds-IsFresh zero limit info_hash st f = relaxed limit (limit + 3 * 0) st (omega arith) f
  rounds-IsFresh (suc n) limit info_hash st f =
      let nodes = to_query alpha st.queried st.candidates in
      let P = IsFresh base (limit + 3 * suc n) [] in
      let same : limit + alpha + 3 * n ≡ limit + 3 * suc n = omega arith in
      if-Post P (λ e. Unit) (length nodes == 0) (ok st) _
        (relaxed limit (limit + 3 * suc n) st (omega arith) f)
        (bind-Post (IsFresh base (limit + alpha) []) P (λ e. Unit)
          (query_nodes sorter reaches random info_hash nodes
            (record st { new_nodes_found = false }))
          _
          (query_nodes-IsFresh sorter reaches random base (limit + alpha) info_hash nodes _
            (to_query-IsFresh limit st f))
          (λ done g.
            let closest = keep_closest sorter reaches random info_hash done in
            let h = keep_closest-IsFresh (limit + alpha) info_hash done g in
            if-Post P (λ e. Unit) (not closest.new_nodes_found && ltb (length nodes) alpha)
              (ok closest) (rounds sorter reaches random n info_hash closest)
              (relaxed (limit + alpha) (limit + 3 * suc n) closest (omega arith) h)
              (rw same at (rounds-IsFresh n (limit + alpha) info_hash closest h))))

-- At most 60 queries more, and at most one more to nodes of any one ID
abbrev AskedOnce : Lookup → Lookup → Type 0
AskedOnce st done =
    (length done.sent ≤ length st.sent + 60)
    × ((id : Bytes) → times id (asked_ids done) ≤ times id (asked_ids st) + 1)

get_peers-AskedOnce :
    (sorter : Sorter) (reaches : Node → Bool) (random : ℕ → ℕ) (info_hash : Bytes) (st : Lookup)
    → ((id : Bytes) → times id (ids_of (all_nodes st.table.buckets)) ≤ 1)
    → OnOk
        (λ (r : List Peer × Lookup). AskedOnce st r.1)
        (get_peers sorter reaches random info_hash st)
unfolding get_peers find_closest times
get_peers-AskedOnce sorter reaches random info_hash st unique =
    let candidates = find_closest sorter info_hash max_candidates st.table in
    let start : Lookup = record st { candidates = candidates; queried = []; all_peers = [] } in
    let base = λ (id : Bytes). times id (asked_ids st) in
    let fresh : IsFresh base (length st.sent) [] start = record {
      within = omega arith;
      once = λ id. omega arith;
      distinct = λ id. omega (
        arith,
        keep-times sorter info_hash id max_candidates (all_nodes st.table.buckets),
        unique id,
      );
      logged = λ id. omega arith;
    } in
    let P = λ (r : List Peer × Lookup). AskedOnce st r.1 in
    if-Post P (λ e. Unit) (length candidates == 0) (err no_nodes) _ tt
      (bind-Post (IsFresh base (length st.sent + 3 * max_iterations) []) P (λ e. Unit)
        (rounds sorter reaches random max_iterations info_hash start) _
        (rounds-IsFresh sorter reaches random base max_iterations (length st.sent) info_hash start
          fresh)
        (λ done g.
          if-Post P (λ e. Unit) (length done.all_peers == 0) (err no_peers)
            (ok (done.all_peers, done)) tt
            (omega (arith, g.within), λ id. omega (arith, g.logged id, g.once id))))

-- On a routing table made by any additions to a new one, whatever the network delivers: a lookup that finds
-- peers has sent at most 60 queries, and to nodes of any one ID at most one.
pub get_peers-once :
    (sorter : Sorter) (reaches : Node → Bool) (random : ℕ → ℕ) (info_hash self_id : Bytes)
    (nodes : List Node) (st done : Lookup) (peers : List Peer)
    → st.table ≡ add_all nodes (new_routing_table self_id)
    → get_peers sorter reaches random info_hash st ≡ ok (peers, done)
    → (length done.sent ≤ length st.sent + 60)
      × ((id : Bytes) → times id (asked_ids done) ≤ times id (asked_ids st) + 1)
get_peers-once sorter reaches random info_hash self_id nodes st done peers made found =
    let unique : (id : Bytes) → times id (ids_of (all_nodes st.table.buckets)) ≤ 1 =
      λ id. rw made (new_routing_table_unique self_id id nodes) in
    let w : OnOk (λ (r : List Peer × Lookup). AskedOnce st r.1) (ok (peers, done)) =
      rw found at (get_peers-AskedOnce sorter reaches random info_hash st unique) in
    w
