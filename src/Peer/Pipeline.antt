-- ===== src/Peer/Pipeline.antt =====
-- peer/pipeline.go: the client that the manager drives. Each body of a loop is one step; times are in
-- seconds, and `now` is an argument. The channel of writes takes every message while the client is
-- open, and nothing is queued once it is closed. The manager takes every message of an open client; of
-- a `select` whose cases are both ready, the one on `done` is taken.
pub mod Stalls
mod Tests
use bittorrent_client_go.Base.{
  ℕ, zero, suc, ◌+◌, ◌-◌, ◌%◌, Bool, true, false, not, ◌&&◌, Option, none, some, List, [], ◌∷◌,
  ◌++◌, map, Bytes, codes, ltb, leb, ◌==◌, if◌then◌else◌, length, lookup, insert, delete, u32_of,
  put_u32, u32_mod,
}
use bittorrent_client_go.Bencode.Number.{print_nat}
use bittorrent_client_go.Peer.Message.{write_message}
use bittorrent_client_go.Peer.Client.{block_payload}

pub record OutstandingRequest : Type 0 where
  pub index : ℕ
  pub begin : ℕ
  pub len : ℕ
  pub sent : ℕ

-- `PeerMessage`; the buffers of the pool are left out.
pub record PeerMessage : Type 0 where
  pub peer_address : Bytes
  pub id : ℕ
  pub payload : Bytes

-- The fields of `Client` that its loops use
pub record Link : Type 0 where
  pub address : Bytes
  pub choked : Bool
  pub last_read : ℕ
  pub last_write : ℕ
  pub stall_score : ℕ
  pub outstanding : List (Bytes × OutstandingRequest)
  pub write_queue : List Bytes
  pub is_closed : Bool

-- `fmt.Sprintf("%d_%d", index, begin)`
unfoldable pub request_key : ℕ → ℕ → Bytes
unfolding print_nat
request_key index begin = print_nat index ++ (b'_' ∷ print_nat begin)

-- `StartLoop`, on the messages that were buffered: the client, and what the manager is sent
unfoldable pub start_loop : Bytes → ℕ → List (ℕ × Bytes) → Link × List PeerMessage
start_loop address now buffered = (
  record {
    address = address;
    choked = true;
    last_read = now;
    last_write = now;
    stall_score = 0;
    outstanding = [];
    write_queue = [];
    is_closed = false;
  },
  map (λ (id, payload). record { peer_address = address; id = id; payload = payload }) buffered,
)

-- `Close`
abbrev pub close : Link → Link
close c = record c { is_closed = true }

abbrev pub enqueue : Bytes → Link → Link
enqueue msg c = if c.is_closed then c else record c { write_queue = c.write_queue ++ (msg ∷ []) }

-- `QueueMessage`
unfoldable pub queue_message : ℕ → Bytes → Link → Link
queue_message id payload c = enqueue (write_message id payload) c

-- `QueueKeepalive`
unfoldable pub queue_keepalive : Link → Link
queue_keepalive c = enqueue (0 ∷ 0 ∷ 0 ∷ 0 ∷ []) c

-- `QueueRequest`
unfoldable pub queue_request : ℕ → ℕ → ℕ → ℕ → Link → Link
unfolding request_key queue_message
queue_request now index begin len c =
    let request : OutstandingRequest = record {
      index = index;
      begin = begin;
      len = len;
      sent = now;
    } in
    queue_message 6 (block_payload index begin len)
      (record c { outstanding = insert (request_key index begin) request c.outstanding })

-- `QueueCancel`
unfoldable pub queue_cancel : ℕ → ℕ → ℕ → Link → Link
unfolding queue_message
queue_cancel index begin len c = queue_message 8 (block_payload index begin len) c

-- `GetOutstandingCount`
unfoldable pub get_outstanding_count : Link → ℕ
get_outstanding_count c = length c.outstanding

-- `readLoop` on a piece: the request for its block is no longer outstanding.
unfoldable pub forget_request : Bytes → Link → Link
unfolding request_key
forget_request (a ∷ b ∷ d ∷ e ∷ f ∷ g ∷ h ∷ i ∷ block) c = record c {
  outstanding = delete (request_key (u32_of a b d e) (u32_of f g h i)) c.outstanding;
}
forget_request _ c = c

-- The state machine of `readLoop` on a message
unfoldable pub update_state : ℕ → Bytes → Link → Link
unfolding forget_request
update_state id payload c =
    if id == 0
    then record c { choked = true }
    else if id == 1
    then record c { choked = false }
    else if id == 7
    then forget_request payload c
    else c

-- A round of `readLoop` in which a message is read; the payload of a keepalive is `none`.
unfoldable pub on_message : ℕ → ℕ → Option Bytes → Link → Link × List PeerMessage
unfolding update_state
on_message now id none c = (record c { last_read = now }, [])
on_message now id (some payload) c = (
  update_state id payload (record c { last_read = now }),
  if c.is_closed then [] else record { peer_address = c.address; id = id; payload = payload } ∷ [],
)

-- A round of `readLoop` in which the connection fails
unfoldable pub on_read_error : Bytes → Link → Link × List PeerMessage
on_read_error text c = (
  close c,
  if c.is_closed then [] else record { peer_address = c.address; id = 0xFF; payload = text } ∷ [],
)

-- A round of `writeLoop`: what is written, if a message is queued; in that of a closed client the loop
-- returns.
unfoldable pub write_next : ℕ → Link → Link × Option Bytes
write_next now c = if c.is_closed then (c, none) else (elim c.write_queue [
  | [] ↦ (c, none)
  | ◌∷◌ msg queue ↦ (record c { write_queue = queue; last_write = now }, some msg)
])

abbrev pub is_stalled : ℕ → OutstandingRequest → Bool
is_stalled now r = ltb 15 (now - r.sent)

-- The loop over the outstanding requests: those that stay, and those that stalled
unfoldable pub split_stalled :
    ℕ
    → List (Bytes × OutstandingRequest)
    → List (Bytes × OutstandingRequest) × List OutstandingRequest
split_stalled now [] = ([], [])
split_stalled now ((k, r) ∷ rs) =
    let (fresh, stalled) = split_stalled now rs in
    if is_stalled now r then (fresh, r ∷ stalled) else ((k, r) ∷ fresh, stalled)

-- A cancel for each stalled request, and the sentinel to the manager; a closed client ends the loop.
unfoldable pub cancel_stalled : List OutstandingRequest → Link → Link × List PeerMessage
unfolding queue_cancel
cancel_stalled [] c = (c, [])
cancel_stalled (r ∷ rs) c =
    let d = queue_cancel r.index r.begin r.len c in
    let (e, out) = cancel_stalled rs d in
    if d.is_closed then (d, []) else (
      e,
      record {
        peer_address = c.address;
        id = 0xFE;
        payload = put_u32 (r.index % u32_mod) ++ put_u32 (r.begin % u32_mod);
      }
          ∷ out,
    )

-- The stall monitor of `tickerLoop`
unfoldable pub check_stalls : ℕ → Link → Link × List PeerMessage
unfolding split_stalled cancel_stalled
check_stalls now c =
    let (fresh, stalled) = split_stalled now c.outstanding in
    let score = c.stall_score + length stalled in
    let (d, out) = cancel_stalled stalled (record c { outstanding = fresh; stall_score = score }) in
    (if not (length stalled == 0) && ltb 3 score then close d else d, out)

-- A round of `tickerLoop`; in that of a closed client the loop returns.
unfoldable pub tick : ℕ → Link → Link × List PeerMessage
unfolding check_stalls queue_keepalive
tick now c =
    if c.is_closed
    then (c, [])
    else if ltb 120 (now - c.last_read)
    then (close c, [])
    else check_stalls now (if ltb 120 (now - c.last_write) then queue_keepalive c else c)
