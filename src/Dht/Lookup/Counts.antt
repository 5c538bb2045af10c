-- ===== src/Dht/Lookup/Counts.antt =====
-- How often an ID is among the nodes that a lookup deals with.
use native.Mathlib.Nat.{ℕ_set}
use mathlib.Core.List.{Perm, foldr}
use mathlib.Core.List.Perm
use bittorrent_client_go.Base.{
  ℕ, zero, suc, ◌+◌, ◌≤◌, ◌≡◌, refl, sym, ap, ◌∙◌, true, false, Bool-cases, inl, inr, List, [], ◌∷◌,
  ◌++◌, map, Bytes, bytes_eq, eq_of_bytes_eq, if◌then◌else◌, length, take, arith,
}
use bittorrent_client_go.Base.Sorter.{Sorter}
use bittorrent_client_go.Dht.Node.{Node}
use bittorrent_client_go.Dht.Routing.{is_nearer}
use bittorrent_client_go.Dht.Routing.Unique.{times, ids_of, times-append, map-append}
use bittorrent_client_go.Dht.Lookup.{Lookup, has_id, to_query}

-- The IDs of the nodes that were sent a query
abbrev pub asked_ids : Lookup → List Bytes
asked_ids st = map (λ (s : Node × Bytes). s.0.id) st.sent

pub has_id-times : (id : Bytes) (ids : List Bytes) → has_id id ids ≡ false → times id ids ≡ 0
unfolding times has_id
has_id-times id [] h = refl
has_id-times id (i ∷ ids) h = ground (arith, has_id-times id ids)

pub to_query-times :
    (id : Bytes) (n : ℕ) (queried : List Bytes) (nodes : List Node)
    → times id (ids_of (to_query n queried nodes)) ≤ times id (ids_of nodes)
unfolding times to_query
to_query-times id zero queried nodes = omega arith
to_query-times id (suc n) queried [] = omega arith
to_query-times id (suc n) queried (node ∷ nodes) =
    ground (arith, to_query-times id n queried nodes, to_query-times id (suc n) queried nodes)

pub to_query-new :
    (id : Bytes) (n : ℕ) (queried : List Bytes) (nodes : List Node)
    → has_id id queried ≡ true
    → times id (ids_of (to_query n queried nodes)) ≡ 0
unfolding times to_query
to_query-new id zero queried nodes h = refl
to_query-new id (suc n) queried [] h = refl
to_query-new id (suc n) queried (node ∷ nodes) h = elim (Bool-cases (has_id node.id queried)) [
  | inl old ↦ rw old (to_query-new id (suc n) queried nodes h)
  | inr young ↦
      let other : bytes_eq node.id id ≡ false = elim (Bool-cases (bytes_eq node.id id)) [
        | inl same ↦
            let e : node.id ≡ id = eq_of_bytes_eq node.id id same in
            let bad : true ≡ false = sym h ∙ ap (λ i. has_id i queried) (sym e) ∙ young in cc
        | inr e ↦ e
      ] in
      rw (young, other) (to_query-new id n queried nodes h)
]

pub to_query-length :
    (n : ℕ) (queried : List Bytes) (nodes : List Node) → length (to_query n queried nodes) ≤ n
unfolding to_query
to_query-length zero queried nodes = omega arith
to_query-length (suc n) queried [] = omega arith
to_query-length (suc n) queried (node ∷ nodes) =
    ground (arith, to_query-length n queried nodes, to_query-length (suc n) queried nodes)

pub take-times :
    (id : Bytes) (n : ℕ) (nodes : List Node)
    → times id (ids_of (take n nodes)) ≤ times id (ids_of nodes)
unfolding times
take-times id zero nodes = omega arith
take-times id (suc n) [] = omega arith
take-times id (suc n) (node ∷ nodes) = ground (arith, take-times id n nodes)

abbrev pub bump : Bytes → Node → ℕ → ℕ
bump id n k = if bytes_eq n.id id then suc k else k

pub bump_comm :
    (id : Bytes) (a b : Node) (k : ℕ) → bump id a (bump id b k) ≡ bump id b (bump id a k)
bump_comm id a b k = ground arith

pub times-foldr : (id : Bytes) (xs : List Node) → times id (ids_of xs) ≡ foldr (bump id) 0 xs
unfolding times
times-foldr id [] = refl
times-foldr id (x ∷ xs) = ap (bump id x) (times-foldr id xs)

pub Perm-times :
    (id : Bytes) {xs ys : List Node} → Perm xs ys → times id (ids_of xs) ≡ times id (ids_of ys)
Perm-times id {xs} {ys} p =
    times-foldr id xs ∙ Perm.foldr-eq ℕ_set (bump id) (bump_comm id) p 0 ∙ sym (times-foldr id ys)

-- What a round keeps of the candidates has each ID at most as often.
pub keep-times :
    (sorter : Sorter) (target id : Bytes) (n : ℕ) (nodes : List Node)
    → times id (ids_of (take n (sorter.sort Node (is_nearer target) nodes)))
      ≤ times id (ids_of nodes)
keep-times sorter target id n nodes = omega (
  arith,
  take-times id n (sorter.sort Node (is_nearer target) nodes),
  Perm-times id (sorter.perm Node (is_nearer target) nodes),
)

pub append-distinct :
    (n : Node) (nodes : List Node)
    → has_id n.id (ids_of nodes) ≡ false
    → (id : Bytes) → times id (ids_of nodes) ≤ 1
    → times id (ids_of (nodes ++ (n ∷ []))) ≤ 1
unfolding times
append-distinct n nodes young id few =
    let parts : times id (ids_of (nodes ++ (n ∷ [])))
        ≡ times id (ids_of nodes) + times id (n.id ∷ []) =
      ap (times id) (map-append (λ (c : Node). c.id) nodes (n ∷ []))
      ∙ times-append id (ids_of nodes) (n.id ∷ []) in
    elim (Bool-cases (bytes_eq n.id id)) [
      | inl same ↦
          let e : n.id ≡ id = eq_of_bytes_eq n.id id same in
          let none_before : times id (ids_of nodes) ≡ 0 =
            ap (λ i. times i (ids_of nodes)) (sym e) ∙ has_id-times n.id (ids_of nodes) young in
          ground (arith, parts, none_before)
      | inr other ↦ ground (arith, parts)
    ]
