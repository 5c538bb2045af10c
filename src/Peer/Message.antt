-- ===== src/Peer/Message.antt =====
-- peer/message.go: the framing of messages. A connection is the list of bytes that it will deliver;
-- the buffers of the pool hold copies, so they change no result and are left out.
pub mod RoundTrip
mod Tests
use bittorrent_client_go.Base.{
  ℕ, zero, suc, ◌+◌, ◌%◌, Option, none, some, [], ◌∷◌, ◌++◌, Bytes, ltb, ◌==◌, if◌then◌else◌,
  length, take, drop, Result, ok, err, panic, ◌>>=◌, u32_mod, put_u32, u32_of,
}

pub data ReadError : Type 0 where
  end_of_stream : ReadError

-- `io.ReadFull` of so many bytes: the bytes, and what the connection delivers afterwards.
unfoldable pub read_full : ℕ → Bytes → Result ReadError (Bytes × Bytes)
read_full n conn = if ltb (length conn) n then err end_of_stream else ok (take n conn, drop n conn)

-- `binary.BigEndian.Uint32` of the first four bytes of a slice; it panics on a shorter one.
abbrev pub u32_at : Bytes → Result ReadError ℕ
u32_at (a ∷ b ∷ c ∷ d ∷ rest) = ok (u32_of a b c d)
u32_at _ = panic

-- A message: its id, and its payload, which is `nil` for a keepalive.
pub record Message : Type 0 where
  pub id : ℕ
  pub payload : Option Bytes

-- `msgBuf[0], msgBuf[1:]`
abbrev pub split_message : Bytes → Bytes → Result ReadError (Message × Bytes)
split_message [] rest = panic
split_message (id ∷ payload) rest = ok (record { id = id; payload = some payload }, rest)

-- `readMessage` behind the length prefix
unfoldable pub read_body : ℕ → Bytes → Result ReadError (Message × Bytes)
unfolding read_full
read_body n conn =
    if n == 0
    then ok (record { id = 0; payload = none }, conn)
    else (read_full n conn >>= λ (buf, rest). split_message buf rest)

-- `readMessage`, and `ReadMessage` with it
unfoldable pub read_message : Bytes → Result ReadError (Message × Bytes)
unfolding read_full read_body
read_message conn = read_full 4 conn >>= λ (head, after). u32_at head >>= λ n. read_body n after

-- `ReadBitfield`: what is left on the connection
unfoldable pub read_bitfield : Bytes → Result ReadError Bytes
unfolding read_full
read_bitfield conn = read_full 4 conn >>= λ (head, after).
    u32_at head >>= λ n. if n == 0 then ok after else (read_full n after >>= λ (buf, rest). ok rest)

-- The bytes that `WriteMessage` sends.
unfoldable pub write_message : ℕ → Bytes → Bytes
write_message id payload = put_u32 ((1 + length payload) % u32_mod) ++ (id ∷ payload)

-- The request that `ParseRequest` reads.
pub record Request : Type 0 where
  pub index : ℕ
  pub begin : ℕ
  pub len : ℕ

-- `ParseRequest`; it panics on a payload of fewer than 12 bytes.
unfoldable pub parse_request : Bytes → Option Request
parse_request (a ∷ b ∷ c ∷ d ∷ e ∷ f ∷ g ∷ h ∷ i ∷ j ∷ k ∷ l ∷ rest) =
    some (record { index = u32_of a b c d; begin = u32_of e f g h; len = u32_of i j k l })
parse_request _ = none
