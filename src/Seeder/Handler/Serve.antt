-- ===== src/Seeder/Handler/Serve.antt =====
-- The loop of the seeder on what a peer's `WriteMessage` sends.
use bittorrent_client_go.Base.{
  ℕ, suc, ◌+◌, ◌-◌, ◌%◌, ◌≤◌, ◌<◌, ◌≡◌, refl, ap, ◌∙◌, Bool, true, false, none, some, List, [], ◌∷◌,
  ◌++◌, append_assoc, Bytes, ltb, length, take, drop, get_elem?, All, bind-eq-ok, ok, panic, ◌>>=◌,
  u32_mod, put_u32, u32_of-put_u32, arith,
}
use bittorrent_client_go.Peer.Message.{Message, parse_request, write_message}
use bittorrent_client_go.Peer.Message.RoundTrip.{read_message-write_message}
use bittorrent_client_go.Seeder.Handler.{
  answer_request, handle_request, handle_message, handle, Served, served, serve, round, replies,
}

-- The payload of a request for a block.
abbrev pub request_payload : ℕ → ℕ → ℕ → Bytes
request_payload index begin len = put_u32 index ++ (put_u32 begin ++ put_u32 len)

parse_request-request_payload :
    (index begin len : ℕ)
    → index < u32_mod
    → begin < u32_mod
    → len < u32_mod
    → parse_request (request_payload index begin len)
      ≡ some (record { index = index; begin = begin; len = len })
unfolding parse_request
parse_request-request_payload index begin len hi hb hl =
    rw (u32_of-put_u32 index hi, u32_of-put_u32 begin hb, u32_of-put_u32 len hl) refl

request_unfold :
    (pieces : List Bytes) (index begin len : ℕ)
    → index < u32_mod
    → begin < u32_mod
    → len < u32_mod
    → handle_message pieces true 6 (request_payload index begin len) ≡ (
        answer_request pieces (record { index = index; begin = begin; len = len })
        >>= (λ response. elim response [
          | none ↦ ok []
          | some resp_payload ↦ ok (write_message 7 resp_payload)
        ])
        >>= λ sent. ok (true, sent))
unfolding handle_message handle_request
request_unfold pieces index begin len hi hb hl =
    rw (parse_request-request_payload index begin len hi hb hl)

answer_within :
    (pieces : List Bytes) (index begin len : ℕ) (piece_data : Bytes)
    → get_elem? pieces index ≡ some piece_data
    → length piece_data < u32_mod
    → begin + len ≤ length piece_data
    → answer_request pieces (record { index = index; begin = begin; len = len })
      ≡ ok (some (put_u32 index ++ (put_u32 begin ++ take len (drop begin piece_data))))
unfolding answer_request
answer_within pieces index begin len piece_data e hs hb =
    let sum : (begin + len) % u32_mod ≡ begin + len = omega arith in
    let ends : ltb (length piece_data) (begin + len) ≡ false = ground arith in
    let rises : ltb (begin + len) begin ≡ false = ground arith in
    let size : begin + len - begin ≡ len = omega arith in
    rw (e, answer_request) (rw (sum, ends, rises, size) refl)

answer_wrapped :
    (pieces : List Bytes) (index begin len : ℕ) (piece_data : Bytes)
    → begin < u32_mod
    → len < u32_mod
    → get_elem? pieces index ≡ some piece_data
    → u32_mod ≤ begin + len
    → begin + len ≤ u32_mod + length piece_data
    → answer_request pieces (record { index = index; begin = begin; len = len }) ≡ panic
unfolding answer_request
answer_wrapped pieces index begin len piece_data hb hl e over near =
    let sum : (begin + len) % u32_mod ≡ begin + len - u32_mod = omega arith in
    let ends : ltb (length piece_data) (begin + len - u32_mod) ≡ false = ground arith in
    let falls : ltb (begin + len - u32_mod) begin ≡ true = ground arith in
    rw (e, answer_request) (rw (sum, ends, falls) refl)

-- A request of an interested peer for a block within a piece of less than 4 GiB is answered by one
-- message, a `MsgPiece` with the request's index and begin and the bytes of the piece from there on,
-- as many as were asked for.
pub handle_message-request :
    (pieces : List Bytes) (index begin len : ℕ) (piece_data : Bytes)
    → index < u32_mod
    → get_elem? pieces index ≡ some piece_data
    → length piece_data < u32_mod
    → begin + len ≤ length piece_data
    → handle_message pieces true 6 (request_payload index begin len)
      ≡ ok (
        true,
        write_message 7 (put_u32 index ++ (put_u32 begin ++ take len (drop begin piece_data))),
      )
handle_message-request pieces index begin len piece_data hi e hs hb =
    request_unfold pieces index begin len hi (omega arith) (omega arith)
    ∙ rw (answer_within pieces index begin len piece_data e hs hb)

-- A request of an interested peer whose begin and length add up to 2^32 or more makes the seeder
-- panic if the sum, less 2^32, is within the piece.
pub handle_message_panic :
    (pieces : List Bytes) (index begin len : ℕ) (piece_data : Bytes)
    → index < u32_mod
    → begin < u32_mod
    → len < u32_mod
    → get_elem? pieces index ≡ some piece_data
    → u32_mod ≤ begin + len
    → begin + len ≤ u32_mod + length piece_data
    → handle_message pieces true 6 (request_payload index begin len) ≡ panic
handle_message_panic pieces index begin len piece_data hi hb hl e over near =
    request_unfold pieces index begin len hi hb hl
    ∙ rw (answer_wrapped pieces index begin len piece_data hb hl e over near)

-- The ids and payloads that a peer writes, as messages and as bytes.
abbrev pub message_of : ℕ × Bytes → Message
message_of (id, payload) = record { id = id; payload = some payload }

unfoldable pub messages : List (ℕ × Bytes) → List Message
messages [] = []
messages (m ∷ ms) = message_of m ∷ messages ms

unfoldable pub wire : List (ℕ × Bytes) → Bytes
wire [] = []
wire ((id, payload) ∷ ms) = write_message id payload ++ wire ms

abbrev pub IsShort : ℕ × Bytes → Type 0
IsShort (id, payload) = 1 + length payload < u32_mod

served_append : (a b : Bytes) (s : Served) → served a (served b s) ≡ served (a ++ b) s
served_append a b s = rw (append_assoc a b s.sent)

round_read :
    (pieces : List Bytes) (i next : Bool) (m : ℕ × Bytes) (out rest : Bytes)
    → IsShort m
    → handle pieces i (message_of m) ≡ ok (next, out)
    → round pieces i (write_message m.0 m.1 ++ rest) ≡ ok (next, out, rest)
unfolding round
round_read pieces i next (id, payload) out rest h e =
    rw (read_message-write_message id payload rest h) (rw e refl)

serve_step :
    (n : ℕ) (pieces : List Bytes) (i next : Bool) (conn out rest : Bytes)
    → round pieces i conn ≡ ok (next, out, rest)
    → serve (suc n) pieces i conn ≡ served out (serve n pieces next rest)
unfolding serve
serve_step n pieces i next conn out rest e = rw (e, serve) refl

-- On a connection that delivers a list of messages the way the peer writes them, and then any other
-- bytes, the loop sends for the messages what their handlers answer, one after the other, and goes
-- on with the other bytes, if no message is of 4 GiB or more and no handler panics.
pub serve-wire :
    (pieces : List Bytes) (i last : Bool) (ms : List (ℕ × Bytes)) (out rest : Bytes) (fuel : ℕ)
    → All IsShort ms
    → replies pieces i (messages ms) ≡ ok (last, out)
    → serve (length ms + fuel) pieces i (wire ms ++ rest) ≡ served out (serve fuel pieces last rest)
unfolding messages wire replies serve
serve-wire pieces i last [] out rest fuel h e =
    let stay : i ≡ last = cc in
    let none_sent : [] ≡ out = cc in
    let same : 0 + fuel ≡ fuel = omega arith in rw (same, ← stay, ← none_sent) refl
serve-wire pieces i last (m ∷ ms) out rest fuel h e =
    let ((next, now), first, more) =
      bind-eq-ok (handle pieces i (message_of m))
        (λ (next, out).
          replies pieces next (messages ms) >>= λ (last, more). ok (last, out ++ more))
        e in
    let ((end, later), then_all, done) =
      bind-eq-ok (replies pieces next (messages ms)) (λ (last, more). ok (last, now ++ more))
        more in
    let here : round pieces i (wire (m ∷ ms) ++ rest) ≡ ok (next, now, wire ms ++ rest) =
      rw (append_assoc (write_message m.0 m.1) (wire ms) rest)
        (round_read pieces i next m now (wire ms ++ rest) h.0 first) in
    let ih = serve-wire pieces next end ms later rest fuel h.1 then_all in
    let ends : end ≡ last = cc in
    let sends : now ++ later ≡ out = cc in
    let step : suc (length ms) + fuel ≡ suc (length ms + fuel) = omega arith in
    rw step (
      serve_step (length ms + fuel) pieces i next (wire (m ∷ ms) ++ rest) now (wire ms ++ rest)
        here)
    ∙ ap (served now) ih
    ∙ served_append now later (serve fuel pieces end rest)
    ∙ rw (ends, sends) refl
