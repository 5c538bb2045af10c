-- ===== src/Seeder/Handler.antt =====
-- seeder/handler.go: what the seeder sends to one peer. A connection is the list of bytes that it
-- will deliver; writes on it succeed.
pub mod Serve
pub mod Fuel
pub mod Greet
mod Tests
use bittorrent_client_go.Base.{
  ℕ, zero, suc, ◌+◌, ◌-◌, ◌%◌, Bool, true, false, not, Option, none, some, List, [], ◌∷◌, ◌++◌,
  Bytes, bytes_eq, ltb, ◌==◌, if◌then◌else◌, length, take, drop, get_elem?, Result, ok, err, panic,
  ◌>>=◌, u32_mod, put_u32,
}
use bittorrent_client_go.Peer.Message.{
  ReadError, Message, Request, parse_request, read_message, write_message,
}
use bittorrent_client_go.Seeder.Storage.{build_bitfield}
use bittorrent_client_go.Peer.Handshake.{build_handshake, do_handshake, receive_handshake}

-- The payload of the `MsgPiece` that answers a request; none is sent for a piece or a block out of
-- bounds. `begin + length` is a sum of two `uint32`; the slice panics if it ends before it begins.
unfoldable pub answer_request : List Bytes → Request → Result ReadError (Option Bytes)
answer_request pieces req = elim (get_elem? pieces req.index) [
  | none ↦ ok none
  | some piece_data ↦
      let stop = (req.begin + req.len) % u32_mod in
      if ltb (length piece_data) stop
      then ok none
      else if ltb stop req.begin
      then panic
      else (let block = take (stop - req.begin) (drop req.begin piece_data) in
          ok (some (put_u32 req.index ++ (put_u32 req.begin ++ block))))
]

-- The bytes that answer the payload of a `MsgRequest`.
unfoldable pub handle_request : List Bytes → Bytes → Result ReadError Bytes
unfolding answer_request
handle_request pieces payload =
    if ltb (length payload) 12 then ok [] else (elim (parse_request payload) [
      | none ↦ panic
      | some req ↦ answer_request pieces req >>= λ response. elim response [
        | none ↦ ok []
        | some resp_payload ↦ ok (write_message 7 resp_payload)
      ]
    ])

-- One round of the main loop behind `ReadMessage`: the new `peerInterested`, and the bytes sent.
unfoldable pub handle_message : List Bytes → Bool → ℕ → Bytes → Result ReadError (Bool × Bytes)
unfolding handle_request
handle_message pieces interested id payload =
    if id == 2
    then ok (true, write_message 1 [])
    else if id == 3
    then ok (false, write_message 0 [])
    else if id == 6
    then (if interested
        then (handle_request pieces payload >>= λ sent. ok (interested, sent))
        else ok (interested, []))
    else ok (interested, [])

-- A keepalive is skipped.
unfoldable pub handle : List Bytes → Bool → Message → Result ReadError (Bool × Bytes)
unfolding handle_message
handle pieces interested m = elim m.payload [
  | none ↦ ok (interested, [])
  | some payload ↦ handle_message pieces interested m.id payload
]

-- How `handlePeer` ends: it returns, it panics, or the fuel of the model is used up.
pub data Ending : Type 0 where
  closed : Ending
  crashed : Ending
  out_of_fuel : Ending

-- What was sent in all, and how it ended.
pub record Served : Type 0 where
  pub sent : Bytes
  pub ending : Ending

abbrev pub served : Bytes → Served → Served
served out s = record { sent = out ++ s.sent; ending = s.ending }

-- A round of the main loop: the new `peerInterested`, what is sent, and what is left to read.
unfoldable pub round : List Bytes → Bool → Bytes → Result ReadError (Bool × Bytes × Bytes)
unfolding handle
round pieces interested conn = read_message conn >>= λ (m, rest).
    handle pieces interested m >>= λ (next, out). ok (next, out, rest)

-- The main loop
unfoldable pub serve : ℕ → List Bytes → Bool → Bytes → Served
unfolding round
serve zero pieces interested conn = record { sent = []; ending = out_of_fuel }
serve (suc fuel) pieces interested conn = elim (round pieces interested conn) [
  | ok (next, out, rest) ↦ served out (serve fuel pieces next rest)
  | err e ↦ record { sent = []; ending = closed }
  | panic ↦ record { sent = []; ending = crashed }
]

-- `handlePeer`
unfoldable pub handle_peer : ℕ → Bytes → List Bytes → ℕ → Bytes → Served
unfolding serve
handle_peer fuel info_hash pieces num_pieces conn = elim (receive_handshake conn) [
  | ok (greeting, after) ↦
      let answered : Served = (elim (do_handshake after) [
        | ok (answer, rest) ↦
            served (write_message 5 (build_bitfield num_pieces)) (serve fuel pieces false rest)
        | err e ↦ record { sent = []; ending = closed }
        | panic ↦ record { sent = []; ending = crashed }
      ]) in
      if bytes_eq greeting.info_hash info_hash
      then served (build_handshake info_hash false) answered
      else record { sent = []; ending = closed }
  | err e ↦ record { sent = []; ending = closed }
  | panic ↦ record { sent = []; ending = crashed }
]

-- What is sent for the messages of a list, one after the other, up to a panic.
unfoldable pub replies : List Bytes → Bool → List Message → Result ReadError (Bool × Bytes)
unfolding handle
replies pieces interested [] = ok (interested, [])
replies pieces interested (m ∷ ms) = handle pieces interested m >>= λ (next, out).
    replies pieces next ms >>= λ (last, more). ok (last, out ++ more)
