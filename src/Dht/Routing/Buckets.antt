-- ===== src/Dht/Routing/Buckets.antt =====
-- What the buckets of a routing table hold after any additions.
use bittorrent_client_go.Base.{
  ℕ, zero, suc, ◌+◌, ◌≤◌, ◌≡◌, refl, ap, ◌∙◌, sym, false, Bool-cases, inl, inr, none, some,
  Option-cases, List, [], ◌∷◌, ◌++◌, Bytes, bytes_eq, ltb, length, length-append, length-set,
  length-replicate, get_or, set, replicate, All, All-snoc, arith,
}
use mathlib.Core.Path.{subst}
use bittorrent_client_go.Dht.Node.{Node}
use bittorrent_client_go.Dht.Routing.{
  RoutingTable, bucket_size, num_buckets, new_routing_table, bucket_index, refresh, add_to,
  add_node,
}

refresh-keeps :
    (P : Node → Type 0) (node : Node) (bucket b : List Node)
    → All P bucket
    → P node
    → refresh node bucket ≡ some b
    → All P b × (length b ≡ length bucket)
unfolding refresh
refresh-keeps P node [] b h k e = cc
refresh-keeps P node (n ∷ bucket) b h k e = elim (Bool-cases (bytes_eq n.id node.id)) [
  | inl hit ↦
      let moved : some (bucket ++ (node ∷ [])) ≡ some b = rw hit at e in
      let same : bucket ++ (node ∷ []) ≡ b = cc in
      subst (λ l. All P l × (length l ≡ suc (length bucket))) same
        (All-snoc P bucket node h.1 k, omega (arith, length-append bucket (node ∷ [])))
  | inr miss ↦ elim (Option-cases (refresh node bucket)) [
    | inl gone ↦ let no : none ≡ some b = rw (miss, gone) at e in cc
    | inr (rest, found) ↦
        let kept : some (n ∷ rest) ≡ some b = rw (miss, found) at e in
        let same : n ∷ rest ≡ b = cc in
        let ih = refresh-keeps P node bucket rest h.1 k found in
        subst (λ l. All P l × (length l ≡ suc (length bucket))) same ((h.0, ih.0), ap suc ih.1)
  ]
]

-- A bucket of at most eight nodes that all satisfy a predicate
abbrev pub Holds : (Node → Type 0) → List Node → Type 0
Holds P bucket = (length bucket ≤ bucket_size) × All P bucket

add_to-Holds :
    (P : Node → Type 0) (node : Node) (bucket : List Node)
    → P node
    → Holds P bucket
    → Holds P (add_to node bucket)
unfolding add_to
add_to-Holds P node bucket k (size, all) = elim (Option-cases (refresh node bucket)) [
  | inl new ↦ elim (Bool-cases (ltb (length bucket) bucket_size)) [
    | inl room ↦
        rw (new, add_to)
          (rw room (ground (arith, length-append bucket (node ∷ [])), All-snoc P bucket node all k))
    | inr full ↦ rw (new, add_to) (rw full (size, all))
  ]
  | inr (moved, e) ↦
      let kept = refresh-keeps P node bucket moved all k e in
      rw (e, add_to) (omega (arith, kept.1), kept.0)
]

-- The node belongs into the bucket `i`, and is not the table's own.
abbrev pub Belongs : Bytes → ℕ → Node → Type 0
Belongs self_id i n = (bucket_index self_id n.id ≡ i) × (bytes_eq n.id self_id ≡ false)

abbrev pub AreFiled : Bytes → ℕ → List (List Node) → Type 0
AreFiled self_id i [] = Unit
AreFiled self_id i (b ∷ buckets) = Holds (Belongs self_id i) b × AreFiled self_id (i + 1) buckets

set-AreFiled :
    (self_id : Bytes) (i k : ℕ) (node : Node) (buckets : List (List Node))
    → Belongs self_id (i + k) node
    → AreFiled self_id i buckets
    → AreFiled self_id i (set buckets k (add_to node (get_or buckets k [])))
set-AreFiled self_id i k node [] h f = tt
set-AreFiled self_id i zero node (b ∷ buckets) h f =
    let e : i + 0 ≡ i = omega arith in
    let here : Belongs self_id i node = subst (λ j. Belongs self_id j node) e h in
    (add_to-Holds (Belongs self_id i) node b here f.0, f.1)
set-AreFiled self_id i (suc k) node (b ∷ buckets) h f =
    let e : i + suc k ≡ i + 1 + k = omega arith in
    let later : Belongs self_id (i + 1 + k) node = subst (λ j. Belongs self_id j node) e h in
    (f.0, set-AreFiled self_id (i + 1) k node buckets later f.1)

-- 160 buckets of at most eight nodes, each node in the bucket of its ID, and not the own ID.
abbrev pub IsTable : Bytes → RoutingTable → Type 0
IsTable self_id rt =
    (rt.self_id ≡ self_id) × (length rt.buckets ≡ num_buckets) × AreFiled self_id 0 rt.buckets

pub add_node-IsTable :
    (self_id : Bytes) (node : Node) (rt : RoutingTable)
    → IsTable self_id rt
    → IsTable self_id (add_node node rt)
unfolding add_node
add_node-IsTable self_id node rt (own, size, filed) =
    elim (Bool-cases (bytes_eq node.id rt.self_id)) [
      | inl is_own ↦ rw is_own (own, size, filed)
      | inr other ↦
          let k = bucket_index rt.self_id node.id in
          let here : 0 + k ≡ k = omega arith in
          let place : bucket_index self_id node.id ≡ 0 + k =
            ap (λ s. bucket_index s node.id) (sym own) ∙ sym here in
          let not_own : bytes_eq node.id self_id ≡ false =
            ap (λ s. bytes_eq node.id s) (sym own) ∙ other in
          rw other (
            own,
            length-set rt.buckets k (add_to node (get_or rt.buckets k [])) ∙ size,
            set-AreFiled self_id 0 k node rt.buckets (place, not_own) filed,
          )
    ]

unfoldable pub add_all : List Node → RoutingTable → RoutingTable
add_all [] rt = rt
add_all (n ∷ nodes) rt = add_all nodes (add_node n rt)

pub empty-AreFiled : (self_id : Bytes) (r i : ℕ) → AreFiled self_id i (replicate r [])
empty-AreFiled self_id zero i = tt
empty-AreFiled self_id (suc r) i = ((omega arith, tt), empty-AreFiled self_id r (i + 1))

add_all-IsTable :
    (self_id : Bytes) (nodes : List Node) (rt : RoutingTable)
    → IsTable self_id rt
    → IsTable self_id (add_all nodes rt)
unfolding add_all
add_all-IsTable self_id [] rt h = h
add_all-IsTable self_id (n ∷ nodes) rt h =
    add_all-IsTable self_id nodes (add_node n rt) (add_node-IsTable self_id n rt h)

-- After any additions to a new routing table, it has 160 buckets of at most eight nodes each, every
-- node is in the bucket that `bucketIndex` gives for its ID, and no node has the table's own ID.
pub new_routing_table-IsTable :
    (self_id : Bytes) (nodes : List Node)
    → IsTable self_id (add_all nodes (new_routing_table self_id))
new_routing_table-IsTable self_id nodes =
    add_all-IsTable self_id nodes (new_routing_table self_id)
      (refl, length-replicate {A = List Node} num_buckets [], empty-AreFiled self_id num_buckets 0)
