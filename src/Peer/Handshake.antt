-- ===== src/Peer/Handshake.antt =====
-- peer/handshake.go: the 68 bytes of the handshake. A connection is the list of bytes that it will
-- deliver, and what is sent on it is returned.
pub mod Wire
mod Tests
use Prim.Native.Nat.{bit_and}
use bittorrent_client_go.Base.{
  ℕ, zero, suc, ◌+◌, ◌-◌, Bool, true, false, not, Option, none, some, [], ◌∷◌, ◌++◌, Bytes, codes,
  ◌==◌, if◌then◌else◌, length, take, drop, replicate, get_or, Result, ok, err, panic, ◌>>=◌,
}
use bittorrent_client_go.Peer.Message.{ReadError, read_full}

-- The array that `copy` leaves of an array of `n` zeros: at most `n` bytes are copied.
abbrev pub copy_into : ℕ → Bytes → Bytes
copy_into n s = take n s ++ replicate (n - length s) 0

abbrev pub protocol : Bytes
protocol = codes "BitTorrent protocol"

abbrev pub own_id : Bytes
own_id = codes "-MT1230-rT6yUi8OpLkJ"

-- The handshake that `DoHandshake` sends: the length of the protocol's name, the name, eight bytes
-- of flags with the extension bit in the sixth, the info hash and the peer ID.
unfoldable pub build_handshake : Bytes → Bool → Bytes
build_handshake info_hash extensions =
    19
    ∷ (protocol
        ++ (replicate 5 0
            ++ ((if extensions then 0x10 else 0) ∷ 0 ∷ 0 ∷ (copy_into 20 info_hash ++ own_id))))

-- The peer's ID, and whether it supports extensions.
pub record Answer : Type 0 where
  pub peer_id : Bytes
  pub extensions : Bool

-- What `DoHandshake` makes of the 68 bytes that it reads.
unfoldable pub read_answer : Bytes → Answer
read_answer response = record {
  peer_id = take 20 (drop 48 response);
  extensions = not (bit_and (get_or response 25 0) 0x10 == 0);
}

-- `DoHandshake` behind its write, which sends `build_handshake info_hash extensions`.
unfoldable pub do_handshake : Bytes → Result ReadError (Answer × Bytes)
unfolding read_full
do_handshake conn = read_full 68 conn >>= λ (response, rest). ok (read_answer response, rest)

-- The info hash and the ID of the peer.
pub record Greeting : Type 0 where
  pub info_hash : Bytes
  pub peer_id : Bytes

-- `ReceiveHandshake`
unfoldable pub receive_handshake : Bytes → Result ReadError (Greeting × Bytes)
unfolding read_full
receive_handshake conn = read_full 68 conn >>= λ (response, rest).
    ok (
      record { info_hash = take 20 (drop 28 response); peer_id = take 20 (drop 48 response) },
      rest,
    )
