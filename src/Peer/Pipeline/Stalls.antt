-- ===== src/Peer/Pipeline/Stalls.antt =====
-- What a round of the ticker does with the outstanding requests.
use bittorrent_client_go.Base.{
  ℕ, ◌+◌, ◌-◌, ◌%◌, ◌≤◌, ◌≡◌, refl, ap, ◌∙◌, false, not, ◌&&◌, Bool-cases, inl, inr, List, [], ◌∷◌,
  ◌++◌, map, Bytes, ltb, ◌==◌, if◌then◌else◌, length, put_u32, u32_mod, arith,
}
use bittorrent_client_go.Peer.Pipeline.{
  OutstandingRequest, PeerMessage, Link, close, queue_message, queue_cancel, queue_keepalive,
  is_stalled, split_stalled, cancel_stalled, check_stalls, tick,
}

-- The sentinel for a stalled request
abbrev pub sentinel : Bytes → OutstandingRequest → PeerMessage
sentinel address r = record {
  peer_address = address;
  id = 0xFE;
  payload = put_u32 (r.index % u32_mod) ++ put_u32 (r.begin % u32_mod);
}

-- The requests that were sent more than 15 seconds ago, in the order in which they are held
unfoldable pub stalled_among : ℕ → List (Bytes × OutstandingRequest) → List OutstandingRequest
stalled_among now [] = []
stalled_among now ((k, r) ∷ rs) =
    if ltb 15 (now - r.sent) then r ∷ stalled_among now rs else stalled_among now rs

-- Those that were not, under their keys
unfoldable pub fresh_among :
    ℕ → List (Bytes × OutstandingRequest) → List (Bytes × OutstandingRequest)
fresh_among now [] = []
fresh_among now ((k, r) ∷ rs) =
    if ltb 15 (now - r.sent) then fresh_among now rs else (k, r) ∷ fresh_among now rs

split_stalled_lem :
    (now : ℕ) (rs : List (Bytes × OutstandingRequest))
    → split_stalled now rs ≡ (fresh_among now rs, stalled_among now rs)
unfolding split_stalled fresh_among stalled_among
split_stalled_lem now [] = refl
split_stalled_lem now ((k, r) ∷ rs) = elim (Bool-cases (is_stalled now r)) [
  | inl old ↦ rw (old, split_stalled_lem now rs) refl
  | inr young ↦ rw (young, split_stalled_lem now rs) refl
]

queue_cancel-same :
    (index begin len : ℕ) (c : Link)
    → ((queue_cancel index begin len c).outstanding ≡ c.outstanding)
      × ((queue_cancel index begin len c).stall_score ≡ c.stall_score)
      × ((queue_cancel index begin len c).address ≡ c.address)
      × ((queue_cancel index begin len c).is_closed ≡ c.is_closed)
unfolding queue_cancel queue_message
queue_cancel-same index begin len c = elim (Bool-cases c.is_closed) [
  | inl e ↦ rw e (refl, refl, refl, refl)
  | inr e ↦ rw e (refl, refl, refl, refl)
]

queue_keepalive-same :
    (c : Link)
    → ((queue_keepalive c).outstanding ≡ c.outstanding)
      × ((queue_keepalive c).address ≡ c.address)
      × ((queue_keepalive c).is_closed ≡ c.is_closed)
unfolding queue_keepalive
queue_keepalive-same c = elim (Bool-cases c.is_closed) [
  | inl e ↦ rw e (refl, refl, refl)
  | inr e ↦ rw e (refl, refl, refl)
]

cancel_stalled_lem :
    (rs : List OutstandingRequest) (c : Link)
    → c.is_closed ≡ false
    → ((cancel_stalled rs c).0.outstanding ≡ c.outstanding)
      × ((cancel_stalled rs c).1 ≡ map (sentinel c.address) rs)
unfolding cancel_stalled
cancel_stalled_lem [] c opened = (refl, refl)
cancel_stalled_lem (r ∷ rs) c opened =
    let d = queue_cancel r.index r.begin r.len c in
    let (held, score, address, closed) = queue_cancel-same r.index r.begin r.len c in
    let (held', out) = cancel_stalled_lem rs d (closed ∙ opened) in
    rw (closed ∙ opened) (
      held' ∙ held,
      ap (λ t. sentinel c.address r ∷ t) (out ∙ ap (λ a. map (sentinel a) rs) address),
    )

check_stalls_lem :
    (now : ℕ) (c : Link)
    → c.is_closed ≡ false
    → ((check_stalls now c).0.outstanding ≡ fresh_among now c.outstanding)
      × ((check_stalls now c).1 ≡ map (sentinel c.address) (stalled_among now c.outstanding))
unfolding check_stalls
check_stalls_lem now c opened =
    rw (split_stalled_lem now c.outstanding) (by_score (stalled_among now c.outstanding))
  where
    by_score :
        (stalled : List OutstandingRequest)
        → ((if not (length stalled == 0) && ltb 3 (c.stall_score + length stalled)
              then close
                  (cancel_stalled stalled (record c {
                    outstanding = fresh_among now c.outstanding;
                    stall_score = c.stall_score + length stalled;
                  })).0
              else (cancel_stalled stalled (record c {
                outstanding = fresh_among now c.outstanding;
                stall_score = c.stall_score + length stalled;
              })).0).outstanding
            ≡ fresh_among now c.outstanding)
          × ((cancel_stalled stalled (record c {
            outstanding = fresh_among now c.outstanding;
            stall_score = c.stall_score + length stalled;
          })).1
              ≡ map (sentinel c.address) stalled)
    by_score stalled =
        let e =
          cancel_stalled_lem stalled
            (record c {
              outstanding = fresh_among now c.outstanding;
              stall_score = c.stall_score + length stalled;
            })
            opened in
        elim (Bool-cases (not (length stalled == 0) && ltb 3 (c.stall_score + length stalled))) [
          | inl many ↦ rw many (e.0, e.1)
          | inr few ↦ rw few (e.0, e.1)
        ]

tick-heard :
    (now : ℕ) (c : Link)
    → c.is_closed ≡ false
    → ltb 120 (now - c.last_read) ≡ false
    → tick now c ≡ check_stalls now (if ltb 120 (now - c.last_write) then queue_keepalive c else c)
unfolding tick
tick-heard now c opened alive =
    let checked =
      check_stalls now (if ltb 120 (now - c.last_write) then queue_keepalive c else c) in
    ap (λ b. if b then (c, []) else if ltb 120 (now - c.last_read) then (close c, []) else checked)
      opened
    ∙ ap (λ b. if b then (close c, []) else checked) alive

-- While an open client has been heard of within 120 seconds, a round of its ticker keeps as outstanding
-- exactly the requests that were sent at most 15 seconds ago, and tells the manager of each of the
-- others, in order, by one sentinel with its index and begin.
pub tick_lem :
    (now : ℕ) (c : Link)
    → c.is_closed ≡ false
    → now - c.last_read ≤ 120
    → ((tick now c).0.outstanding ≡ fresh_among now c.outstanding)
      × ((tick now c).1 ≡ map (sentinel c.address) (stalled_among now c.outstanding))
tick_lem now c opened heard =
    let alive : ltb 120 (now - c.last_read) ≡ false = ground arith in
    elim (Bool-cases (ltb 120 (now - c.last_write))) [
      | inl silent ↦
          let (held, address, closed) = queue_keepalive-same c in
          let (kept, out) = check_stalls_lem now (queue_keepalive c) (closed ∙ opened) in
          rw (tick-heard now c opened alive) (
            rw silent (
              kept ∙ ap (fresh_among now) held,
              out
                  ∙ ap (λ rs. map (sentinel (queue_keepalive c).address) (stalled_among now rs))
                      held
                  ∙ ap (λ a. map (sentinel a) (stalled_among now c.outstanding)) address,
            ))
      | inr writing ↦
          rw (tick-heard now c opened alive) (rw writing (check_stalls_lem now c opened))
    ]
