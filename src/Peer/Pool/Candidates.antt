-- ===== src/Peer/Pool/Candidates.antt =====
-- Which addresses `GetCandidates` lists, and how the other methods change that.
use bittorrent_client_go.Base.{
  ◌↔◌, sym, leb, ltb, ℕ, suc, ◌+◌, ◌*◌, ◌^◌, ◌≤◌, ◌<◌, ◌≡◌, ◌⊎◌, refl, ◌∙◌, min, Bool, true, false,
  ◌||◌, Option, none, some, Option-cases, Bool-cases, inl, inr, List, [], ◌∷◌, Bytes, bytes_eq,
  bytes_eq_iff, bytes_eq_refl, lookup, insert, lookup-insert, All, arith,
}
use bittorrent_client_go.Peer.Pool.{
  PeerEndpoint, Pool, new_endpoint, add, failed, mark_failed, mark_succeeded, mark_seed,
  is_eligible, get_candidates,
}
use mathlib.Core.Path.{subst}
use bittorrent_client_go.Peer.Pool.Backoff.{backoff_lem}

unfoldable pub contains : Bytes → List Bytes → Bool
contains k [] = false
contains k (j ∷ l) = bytes_eq j k || contains k l

abbrev Absent : Bytes → Pool → Type 0
Absent k = All (λ e. bytes_eq e.0 k ≡ false)

-- Each endpoint stands under its own address, and no address stands twice.
abbrev pub IsKeyed : Pool → Type 0
IsKeyed [] = Unit
IsKeyed ((k, ep) ∷ p) = (ep.address ≡ k) × Absent k p × IsKeyed p

Absent-insert :
    (j k : Bytes) (ep : PeerEndpoint) (p : Pool)
    → bytes_eq k j ≡ false
    → Absent j p
    → Absent j (insert k ep p)
unfolding insert
Absent-insert j k ep [] n a = (n, tt)
Absent-insert j k ep ((i, e) ∷ p) n a = elim (Bool-cases (bytes_eq i k)) [
  | inl hit ↦ rw hit (n, a.1)
  | inr miss ↦ rw miss (a.0, Absent-insert j k ep p n a.1)
]

eq_sym_false : (j k : Bytes) → bytes_eq j k ≡ false → bytes_eq k j ≡ false
eq_sym_false j k h = ground (arith, bytes_eq_iff j k, bytes_eq_iff k j, bytes_eq_refl j)

pub insert-IsKeyed :
    (k : Bytes) (ep : PeerEndpoint) (p : Pool)
    → ep.address ≡ k
    → IsKeyed p
    → IsKeyed (insert k ep p)
unfolding insert
insert-IsKeyed k ep [] e h = (e, tt, tt)
insert-IsKeyed k ep ((i, x) ∷ p) e h = elim (Bool-cases (bytes_eq i k)) [
  | inl hit ↦
      let same : i ≡ k = (bytes_eq_iff i k).0 hit in
      rw hit (e, (subst (λ j. Absent j p) same h.1), h.2)
  | inr miss ↦
      rw miss (h.0, Absent-insert i k ep p (eq_sym_false i k miss) h.1, insert-IsKeyed k ep p e h.2)
]

lookup-address :
    (k : Bytes) (p : Pool) (ep : PeerEndpoint) → IsKeyed p → lookup k p ≡ some ep → ep.address ≡ k
unfolding lookup
lookup-address k [] ep h e = cc
lookup-address k ((i, x) ∷ p) ep h e = elim (Bool-cases (bytes_eq i k)) [
  | inl hit ↦ ground (arith, (bytes_eq_iff i k).0 hit, h.0)
  | inr miss ↦ lookup-address k p ep h.2 (ground arith)
]

abbrev pub eligible_at : Bool → ℕ → Option PeerEndpoint → Bool
eligible_at exclude now none = false
eligible_at exclude now (some ep) = is_eligible exclude now ep

get_candidates-Absent :
    (exclude : Bool) (now : ℕ) (k : Bytes) (p : Pool)
    → Absent k p
    → IsKeyed p
    → contains k (get_candidates exclude now p) ≡ false
unfolding get_candidates contains
get_candidates-Absent exclude now k [] a h = refl
get_candidates-Absent exclude now k ((i, ep) ∷ p) a h =
    let ih = get_candidates-Absent exclude now k p a.1 h.2 in
    let other : bytes_eq ep.address k ≡ false = rw h.0 a.0 in
    elim (Bool-cases (is_eligible exclude now ep)) [
      | inl e ↦ rw (e, other, ih)
      | inr e ↦ rw (e, ih)
    ]

-- In a keyed pool `GetCandidates` lists an address exactly if its endpoint is eligible.
get_candidates-contains :
    (exclude : Bool) (now : ℕ) (k : Bytes) (p : Pool)
    → IsKeyed p
    → contains k (get_candidates exclude now p) ≡ eligible_at exclude now (lookup k p)
unfolding get_candidates contains lookup
get_candidates-contains exclude now k [] h = refl
get_candidates-contains exclude now k ((i, ep) ∷ p) h = elim (Bool-cases (bytes_eq i k)) [
  | inl hit ↦
      let here : bytes_eq ep.address k ≡ true = rw h.0 hit in
      let same : i ≡ k = (bytes_eq_iff i k).0 hit in
      let ih = get_candidates-Absent exclude now k p (subst (λ j. Absent j p) same h.1) h.2 in
      elim (Bool-cases (is_eligible exclude now ep)) [
        | inl e ↦ rw (hit, e, here)
        | inr e ↦ rw (hit, e, ih)
      ]
  | inr miss ↦
      let other : bytes_eq ep.address k ≡ false = rw h.0 miss in
      let ih = get_candidates-contains exclude now k p h.2 in
      elim (Bool-cases (is_eligible exclude now ep)) [
        | inl e ↦ rw (miss, e, other, ih)
        | inr e ↦ rw (miss, e, ih)
      ]
]

-- An endpoint that has failed fewer than five times in a row, is no seed where seeds are excluded, and
-- may be tried again by now
pub record MayBeTried (exclude : Bool) (now : ℕ) (ep : PeerEndpoint) : Type 0 where
  pub few : ep.fail_count < 5
  pub no_seed : exclude ≡ true → ep.is_seed ≡ false
  pub due : ep.next_retry_time ≤ now

is_eligible_iff :
    (exclude : Bool) (now : ℕ) (ep : PeerEndpoint)
    → (is_eligible exclude now ep ≡ true) ↔ MayBeTried exclude now ep
unfolding is_eligible
is_eligible_iff exclude now ep = (
  λ h. record { few = ground arith; no_seed = λ e. ground arith; due = ground arith },
  λ m.
      let few : leb 5 ep.fail_count ≡ false = ground (arith, m.few) in
      let due : ltb now ep.next_retry_time ≡ false = ground (arith, m.due) in
      elim (Bool-cases exclude) [
        | inl on ↦ rw (few, due, on, m.no_seed on) refl
        | inr off ↦ rw (few, due, off) refl
      ],
)

-- In a pool in which each endpoint stands under its own address and no address twice, `GetCandidates`
-- lists an address exactly if the pool has an endpoint for it that has failed fewer than five times in a
-- row, is no seed where seeds are excluded, and may be tried again at the time of the call.
pub get_candidates_iff :
    (exclude : Bool) (now : ℕ) (k : Bytes) (p : Pool)
    → IsKeyed p
    → (contains k (get_candidates exclude now p) ≡ true)
      ↔ ((ep : PeerEndpoint) × (lookup k p ≡ some ep) × MayBeTried exclude now ep)
get_candidates_iff exclude now k p h =
    let same = get_candidates-contains exclude now k p h in
    elim (Option-cases (lookup k p)) [
      | inl e ↦
          let unlisted : contains k (get_candidates exclude now p) ≡ false = rw e at same in
          (λ listed. cc, λ (ep, found, m). cc)
      | inr (ep, e) ↦
          let listed : contains k (get_candidates exclude now p) ≡ is_eligible exclude now ep =
            rw e at same in
          (
            λ yes. (ep, e, (is_eligible_iff exclude now ep).0 (sym listed ∙ yes)),
            λ (other, found, m).
                let alike : other ≡ ep = ground arith in
                listed ∙ (is_eligible_iff exclude now ep).1 (rw alike at m),
          )
    ]

pub add-IsKeyed : (k : Bytes) (p : Pool) → IsKeyed p → IsKeyed (add k p)
unfolding add
add-IsKeyed k p h = elim (Option-cases (lookup k p)) [
  | inl e ↦ rw (e, add) (insert-IsKeyed k (new_endpoint k) p refl h)
  | inr (ep, e) ↦ rw (e, add) h
]

pub mark_failed-IsKeyed :
    (now : ℕ) (k : Bytes) (p : Pool) → IsKeyed p → IsKeyed (mark_failed now k p)
unfolding mark_failed
mark_failed-IsKeyed now k p h = elim (Option-cases (lookup k p)) [
  | inl e ↦ rw (e, mark_failed) (insert-IsKeyed k _ p refl h)
  | inr (ep, e) ↦ rw (e, mark_failed) (insert-IsKeyed k _ p (lookup-address k p ep h e) h)
]

pub mark_succeeded-IsKeyed : (k : Bytes) (p : Pool) → IsKeyed p → IsKeyed (mark_succeeded k p)
unfolding mark_succeeded
mark_succeeded-IsKeyed k p h = elim (Option-cases (lookup k p)) [
  | inl e ↦ rw (e, mark_succeeded) h
  | inr (ep, e) ↦ rw (e, mark_succeeded) (insert-IsKeyed k _ p (lookup-address k p ep h e) h)
]

pub mark_seed-IsKeyed : (k : Bytes) (b : Bool) (p : Pool) → IsKeyed p → IsKeyed (mark_seed k b p)
unfolding mark_seed
mark_seed-IsKeyed k b p h = elim (Option-cases (lookup k p)) [
  | inl e ↦ rw (e, mark_seed) h
  | inr (ep, e) ↦ rw (e, mark_seed) (insert-IsKeyed k _ p (lookup-address k p ep h e) h)
]

-- The failures in a row of an address; 0 for an unknown one.
abbrev pub failures : Option PeerEndpoint → ℕ
failures none = 0
failures (some ep) = ep.fail_count

lookup-mark_failed :
    (now : ℕ) (k : Bytes) (p : Pool)
    → (ep : PeerEndpoint) × (lookup k (mark_failed now k p) ≡ some ep)
      × (ep.fail_count ≡ failures (lookup k p) + 1)
      × (ep.next_retry_time ≡ now + min (15 * 2 ^ failures (lookup k p)) 600)
unfolding mark_failed
lookup-mark_failed now k p = elim (Option-cases (lookup k p)) [
  | inl e ↦
      rw (e, mark_failed)
        (
          failed now (new_endpoint k),
          lookup-insert k k _ p ∙ rw (bytes_eq_refl k),
          omega arith,
          omega (arith, backoff_lem 0),
        )
  | inr (ep, e) ↦
      rw (e, mark_failed)
        (
          failed now ep,
          lookup-insert k k _ p ∙ rw (bytes_eq_refl k),
          omega arith,
          (let n : ep.fail_count + 1 ≡ suc ep.fail_count = omega arith in
              rw (n, backoff_lem ep.fail_count) refl),
        )
]

not_eligible :
    (exclude : Bool) (later : ℕ) (ep : PeerEndpoint)
    → (later < ep.next_retry_time) ⊎ (5 ≤ ep.fail_count)
    → is_eligible exclude later ep ≡ false
unfolding is_eligible
not_eligible exclude later ep h = ground arith

-- After a failed connection an address is not listed again before its delay has passed, which is 15
-- seconds doubled for each failure before it in a row and at most 600; from the fifth failure in a
-- row on it is not listed at any time.
pub mark_failed-delays :
    (exclude : Bool) (now later : ℕ) (k : Bytes) (p : Pool)
    → IsKeyed p
    → (later < now + min (15 * 2 ^ failures (lookup k p)) 600) ⊎ (4 ≤ failures (lookup k p))
    → contains k (get_candidates exclude later (mark_failed now k p)) ≡ false
mark_failed-delays exclude now later k p h early =
    let (ep, e, count, retry) = lookup-mark_failed now k p in
    get_candidates-contains exclude later k (mark_failed now k p) (mark_failed-IsKeyed now k p h)
    ∙ rw e (
        not_eligible exclude later ep
          (elim early [ inl a ↦ inl (omega (arith, retry)) | inr b ↦ inr (omega (arith, count)) ]))
