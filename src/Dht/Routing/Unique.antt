-- ===== src/Dht/Routing/Unique.antt =====
-- A routing table has at most one node of each ID.
use mathlib.Core.Path.{subst}
use bittorrent_client_go.Base.{
  ℕ, zero, suc, ◌+◌, ◌≤◌, ◌<◌, ◌≡◌, refl, sym, ap, ◌∙◌, true, false, Bool-cases, inl, inr, none,
  some, Option-cases, List, [], ◌∷◌, ◌++◌, map, Bytes, bytes_eq, eq_of_bytes_eq, ltb, if◌then◌else◌,
  length, length-replicate, get_or, set, replicate, All, arith,
}
use bittorrent_client_go.Dht.Node.{Node}
use bittorrent_client_go.Dht.Routing.{
  RoutingTable, bucket_size, num_buckets, new_routing_table, bucket_index, refresh, add_to,
  add_node, all_nodes,
}
use bittorrent_client_go.Dht.Routing.Buckets.{
  Belongs, AreFiled, IsTable, add_all, add_node-IsTable, empty-AreFiled,
}

-- How often an ID is in a list
unfoldable pub times : Bytes → List Bytes → ℕ
times id [] = 0
times id (i ∷ ids) = let rest = times id ids in if bytes_eq i id then suc rest else rest

abbrev pub ids_of : List Node → List Bytes
ids_of nodes = map (λ (n : Node). n.id) nodes

pub times-append :
    (id : Bytes) (xs ys : List Bytes) → times id (xs ++ ys) ≡ times id xs + times id ys
unfolding times
times-append id [] ys = omega arith
times-append id (x ∷ xs) ys = ground (arith, times-append id xs ys)

pub map-append :
    {A : Type 0} (f : A → Bytes) (xs ys : List A) → map f (xs ++ ys) ≡ map f xs ++ map f ys
map-append f [] ys = refl
map-append f (x ∷ xs) ys = ap (λ t. f x ∷ t) (map-append f xs ys)

abbrev count : Bytes → List Node → ℕ
count id nodes = times id (ids_of nodes)

count-append : (id : Bytes) (xs ys : List Node) → count id (xs ++ ys) ≡ count id xs + count id ys
count-append id xs ys =
    ap (times id) (map-append (λ (n : Node). n.id) xs ys) ∙ times-append id (ids_of xs) (ids_of ys)

refresh-count :
    (id : Bytes) (node : Node) (bucket moved : List Node)
    → refresh node bucket ≡ some moved
    → count id moved ≡ count id bucket
unfolding refresh times
refresh-count id node [] moved e = cc
refresh-count id node (n ∷ bucket) moved e = elim (Bool-cases (bytes_eq n.id node.id)) [
  | inl hit ↦
      let back : some (bucket ++ (node ∷ [])) ≡ some moved = rw hit at e in
      let same : bucket ++ (node ∷ []) ≡ moved = cc in
      let own : n.id ≡ node.id = eq_of_bytes_eq n.id node.id hit in
      subst (λ l. count id l ≡ count id (n ∷ bucket)) same
        (rw own (ground (arith, count-append id bucket (node ∷ []))))
  | inr miss ↦ elim (Option-cases (refresh node bucket)) [
    | inl gone ↦ let no : none ≡ some moved = rw (miss, gone) at e in cc
    | inr (rest, found) ↦
        let kept : some (n ∷ rest) ≡ some moved = rw (miss, found) at e in
        let same : n ∷ rest ≡ moved = cc in
        subst (λ l. count id l ≡ count id (n ∷ bucket)) same
          (ground (arith, refresh-count id node bucket rest found))
  ]
]

refresh-none :
    (node : Node) (bucket : List Node) → refresh node bucket ≡ none → count node.id bucket ≡ 0
unfolding refresh times
refresh-none node [] e = refl
refresh-none node (n ∷ bucket) e = elim (Bool-cases (bytes_eq n.id node.id)) [
  | inl hit ↦ let no : some (bucket ++ (node ∷ [])) ≡ none = rw hit at e in cc
  | inr miss ↦ elim (Option-cases (refresh node bucket)) [
    | inl gone ↦ rw miss (refresh-none node bucket gone)
    | inr (rest, found) ↦ let no : some (n ∷ rest) ≡ none = rw (miss, found) at e in cc
  ]
]

-- One more of the node's own ID at most, and only if there was none
add_to-count :
    (id : Bytes) (node : Node) (bucket : List Node)
    → (bytes_eq node.id id ≡ false → count id (add_to node bucket) ≤ count id bucket)
      × (bytes_eq node.id id ≡ true → count id bucket ≤ 1 → count id (add_to node bucket) ≤ 1)
unfolding add_to times
add_to-count id node bucket = elim (Option-cases (refresh node bucket)) [
  | inr (moved, e) ↦
      let same = refresh-count id node bucket moved e in
      rw (e, add_to) (λ other. omega (arith, same), λ own few. omega (arith, same, few))
  | inl new ↦ elim (Bool-cases (ltb (length bucket) bucket_size)) [
    | inr full ↦ rw (new, add_to) (rw full (λ other. omega arith, λ own few. few))
    | inl room ↦
        let parts = count-append id bucket (node ∷ []) in
        rw (new, add_to)
          (rw room (
            λ other. ground (arith, parts, other),
            λ own few.
                let e : node.id ≡ id = eq_of_bytes_eq node.id id own in
                let before : count id bucket ≡ 0 =
                  subst (λ i. count i bucket ≡ 0) e (refresh-none node bucket new) in
                ground (arith, parts, own, before),
          ))
  ]
]

-- An ID is in its bucket only.
count-elsewhere :
    (self_id id : Bytes) (i : ℕ) (bucket : List Node)
    → All (Belongs self_id i) bucket
    → (bucket_index self_id id ≡ i → ⊥)
    → count id bucket ≡ 0
unfolding times
count-elsewhere self_id id i [] all away = refl
count-elsewhere self_id id i (n ∷ bucket) all away = elim (Bool-cases (bytes_eq n.id id)) [
  | inl same ↦
      absurd (away (ap (bucket_index self_id) (sym (eq_of_bytes_eq n.id id same)) ∙ all.0.0))
  | inr other ↦ rw other (count-elsewhere self_id id i bucket all.1 away)
]

count-later :
    (self_id id : Bytes) (i : ℕ) (buckets : List (List Node))
    → AreFiled self_id i buckets
    → bucket_index self_id id < i
    → count id (all_nodes buckets) ≡ 0
unfolding all_nodes times
count-later self_id id i [] filed before = refl
count-later self_id id i (b ∷ buckets) filed before = omega (
  arith,
  count-append id b (all_nodes buckets),
  count-elsewhere self_id id i b filed.0.1 (λ e. absurd (omega (arith, e, before))),
  count-later self_id id (i + 1) buckets filed.1 (omega (arith, before)),
)

set-count :
    (self_id id : Bytes) (i k : ℕ) (node : Node) (buckets : List (List Node))
    → Belongs self_id (i + k) node
    → AreFiled self_id i buckets
    → count id (all_nodes buckets) ≤ 1
    → (bytes_eq node.id id ≡ false
        → count id (all_nodes (set buckets k (add_to node (get_or buckets k []))))
          ≤ count id (all_nodes buckets))
      × (bytes_eq node.id id ≡ true
          → count id (all_nodes (set buckets k (add_to node (get_or buckets k [])))) ≤ 1)
unfolding all_nodes
set-count self_id id i k node [] h filed few = (λ other. omega arith, λ own. few)
set-count self_id id i zero node (b ∷ buckets) h filed few =
    let here = add_to-count id node b in
    let before = count-append id b (all_nodes buckets) in
    let after = count-append id (add_to node b) (all_nodes buckets) in
    (
      λ other. omega (arith, here.0 other, before, after),
      λ own.
          let place : bucket_index self_id id ≡ i + 0 =
            ap (bucket_index self_id) (sym (eq_of_bytes_eq node.id id own)) ∙ h.0 in
          let gone = count-later self_id id (i + 1) buckets filed.1 (omega (arith, place)) in
          omega (arith, here.1 own (omega (arith, before, few)), after, gone),
    )
set-count self_id id i (suc k) node (b ∷ buckets) h filed few =
    let e : i + suc k ≡ i + 1 + k = omega arith in
    let later : Belongs self_id (i + 1 + k) node = subst (λ j. Belongs self_id j node) e h in
    let before = count-append id b (all_nodes buckets) in
    let after = count-append id b (all_nodes (set buckets k (add_to node (get_or buckets k [])))) in
    let rest =
      set-count self_id id (i + 1) k node buckets later filed.1 (omega (arith, before, few)) in
    (
      λ other. omega (arith, rest.0 other, before, after),
      λ own.
          let place : bucket_index self_id id ≡ i + suc k =
            ap (bucket_index self_id) (sym (eq_of_bytes_eq node.id id own)) ∙ h.0 in
          let gone =
            count-elsewhere self_id id i b filed.0.1
              (λ same. absurd (omega (arith, same, place))) in
          omega (arith, rest.1 own, after, gone),
    )

add_node_unique :
    (self_id id : Bytes) (node : Node) (rt : RoutingTable)
    → IsTable self_id rt
    → count id (all_nodes rt.buckets) ≤ 1
    → count id (all_nodes (add_node node rt).buckets) ≤ 1
unfolding add_node
add_node_unique self_id id node rt (own, size, filed) few =
    elim (Bool-cases (bytes_eq node.id rt.self_id)) [
      | inl is_own ↦ rw is_own few
      | inr other ↦
          let k = bucket_index rt.self_id node.id in
          let here : 0 + k ≡ k = omega arith in
          let place : bucket_index self_id node.id ≡ 0 + k =
            ap (λ s. bucket_index s node.id) (sym own) ∙ sym here in
          let not_own : bytes_eq node.id self_id ≡ false =
            ap (λ s. bytes_eq node.id s) (sym own) ∙ other in
          let w = set-count self_id id 0 k node rt.buckets (place, not_own) filed few in
          rw other (elim (Bool-cases (bytes_eq node.id id)) [
            | inl same ↦ w.1 same
            | inr differs ↦ omega (arith, w.0 differs, few)
          ])
    ]

empty-count : (id : Bytes) (r : ℕ) → count id (all_nodes (replicate r [])) ≡ 0
unfolding all_nodes times
empty-count id zero = refl
empty-count id (suc r) = empty-count id r

add_all_unique :
    (self_id id : Bytes) (nodes : List Node) (rt : RoutingTable)
    → IsTable self_id rt
    → count id (all_nodes rt.buckets) ≤ 1
    → count id (all_nodes (add_all nodes rt).buckets) ≤ 1
unfolding add_all
add_all_unique self_id id [] rt table few = few
add_all_unique self_id id (n ∷ nodes) rt table few =
    add_all_unique self_id id nodes (add_node n rt) (add_node-IsTable self_id n rt table)
      (add_node_unique self_id id n rt table few)

-- After any additions to a new table, each ID is in it at most once.
pub new_routing_table_unique :
    (self_id id : Bytes) (nodes : List Node)
    → times id (ids_of (all_nodes (add_all nodes (new_routing_table self_id)).buckets)) ≤ 1
new_routing_table_unique self_id id nodes =
    add_all_unique self_id id nodes (new_routing_table self_id)
      (refl, length-replicate {A = List Node} num_buckets [], empty-AreFiled self_id num_buckets 0)
      (omega (arith, empty-count id num_buckets))
