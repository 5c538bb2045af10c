-- ===== src/Tracker/Udp.antt =====
-- tracker/udp.go: the UDP tracker behind `DialUDP`. Writes succeed; what the socket's `Read` returns,
-- call by call, is a list. The random numbers are arguments.
pub mod Answers
mod Tests
use bittorrent_client_go.Base.{
  ℕ, zero, suc, ◌+◌, ◌*◌, ◌/◌, ◌%◌, ◌^◌, Bool, true, false, not, ◌&&◌, List, [], ◌∷◌, ◌++◌, Bytes,
  codes, ltb, ◌==◌, if◌then◌else◌, length, take, drop, replicate, Result, ok, err, panic, ◌>>=◌,
  u32_of, put_u32, u32_mod,
}
use bittorrent_client_go.Tracker.{Peer, read_peers}

pub data Read : Type 0 where
  datagram : Bytes → Read
  timed_out failed : Read

pub data UdpError : Type 0 where
  reading too_short transaction_mismatch no_answer : UdpError
  unexpected_action : ℕ → UdpError
  tracker_error : Bytes → UdpError

-- `udpMaxRetries`
abbrev pub max_retries : ℕ
max_retries = 2

-- `binary.BigEndian.PutUint64`
abbrev pub put_u64 : ℕ → Bytes
put_u64 n = put_u32 (n / u32_mod % u32_mod) ++ put_u32 (n % u32_mod)

-- `binary.BigEndian.Uint32` at the start
abbrev pub u32_at : Bytes → ℕ
u32_at (a ∷ b ∷ c ∷ d ∷ rest) = u32_of a b c d
u32_at _ = 0

abbrev pub u64_at : Bytes → ℕ
u64_at s = u32_at s * u32_mod + u32_at (drop 4 s)

-- The connect request
unfoldable pub connect_request : ℕ → Bytes
connect_request transaction_id = put_u64 0x41727101980 ++ (put_u32 0 ++ put_u32 transaction_id)

-- What `udpConnect` makes of the response
unfoldable pub read_connect : ℕ → Bytes → Result UdpError ℕ
read_connect transaction_id resp =
    if ltb (length resp) 16
    then err too_short
    else if not (u32_at resp == 0)
    then err (unexpected_action (u32_at resp))
    else if not (u32_at (drop 4 resp) == transaction_id)
    then err transaction_mismatch
    else ok (u64_at (drop 8 resp))

-- The loop of both requests, `n` times at most: what was sent, and the datagram that is read into a
-- buffer of this size, with the reads left
unfoldable pub exchange : ℕ → ℕ → Bytes → List Read → Bytes × Result UdpError (Bytes × List Read)
exchange zero size req reads = ([], err no_answer)
exchange (suc n) size req [] = (req, err reading)
exchange (suc n) size req (failed ∷ reads) = (req, err reading)
exchange (suc n) size req (datagram s ∷ reads) = (req, ok (take size s, reads))
exchange (suc n) size req (timed_out ∷ reads) =
    let (sent, answer) = exchange n size req reads in (req ++ sent, answer)

-- The peer ID, and an info hash of any length in a field of 20 bytes
abbrev pub peer_id : Bytes
peer_id = codes "-MT1230-rT6yUi8OpLkJ"

abbrev pub hash_field : Bytes → Bytes
hash_field info_hash = take 20 (info_hash ++ replicate 20 0)

-- The announce request; `left` is not negative.
unfoldable pub announce_request : ℕ → ℕ → ℕ → Bytes → ℕ → Bytes
announce_request transaction_id key connection_id info_hash left =
    put_u64 connection_id
    ++ (put_u32 1
        ++ (put_u32 transaction_id
            ++ (hash_field info_hash
                ++ (peer_id
                    ++ (put_u64 0
                        ++ (put_u64 left
                            ++ (put_u64 0
                                ++ (put_u32 0
                                    ++ (put_u32 0
                                        ++ (put_u32 key
                                            ++ (put_u32 0xFFFFFFFF
                                                ++ (6881 / 256 ∷ 6881 % 256 ∷ []))))))))))))

-- What `udpAnnounce` makes of the response
unfoldable pub read_announce : ℕ → Bytes → Result UdpError (List Peer)
unfolding read_peers
read_announce transaction_id resp =
    let action = u32_at resp in
    if ltb (length resp) 20
    then err too_short
    else if not (action == 1)
    then (if action == 3 && ltb 8 (length resp)
        then err (tracker_error (drop 8 resp))
        else err (unexpected_action action))
    else if not (u32_at (drop 4 resp) == transaction_id)
    then err transaction_mismatch
    else ok (read_peers (drop 20 resp))

-- `udpConnect`: what is sent, and the connection ID
unfoldable pub udp_connect : ℕ → List Read → Bytes × Result UdpError (ℕ × List Read)
unfolding exchange connect_request read_connect
udp_connect transaction_id reads =
    let (sent, answer) = exchange max_retries 16 (connect_request transaction_id) reads in
    (
      sent,
      answer >>= λ (resp, rest).
          read_connect transaction_id resp >>= λ connection_id. ok (connection_id, rest),
    )

-- `udpAnnounce`
unfoldable pub udp_announce :
    ℕ → ℕ → ℕ → Bytes → ℕ → List Read → Bytes × Result UdpError (List Peer)
unfolding exchange announce_request read_announce
udp_announce transaction_id key connection_id info_hash left reads =
    let req = announce_request transaction_id key connection_id info_hash left in
    let (sent, answer) = exchange max_retries 4096 req reads in
    (sent, answer >>= λ (resp, rest). read_announce transaction_id resp)

-- The second step of `GetPeersUDP`, on the outcome of the first
unfoldable pub announce_after :
    ℕ
    → ℕ
    → Bytes
    → ℕ
    → Bytes × Result UdpError (ℕ × List Read)
    → Bytes × Result UdpError (List Peer)
announce_after announce_id key info_hash left (sent, err e) = (sent, err e)
announce_after announce_id key info_hash left (sent, panic) = (sent, panic)
announce_after announce_id key info_hash left (sent, ok (connection_id, rest)) =
    let (more, answer) = udp_announce announce_id key connection_id info_hash left rest in
    (sent ++ more, answer)

-- `GetPeersUDP` behind the dialing: what is sent to the tracker, and the peers
unfoldable pub get_peers_udp :
    ℕ → ℕ → ℕ → Bytes → ℕ → List Read → Bytes × Result UdpError (List Peer)
get_peers_udp connect_id announce_id key info_hash left reads =
    announce_after announce_id key info_hash left (udp_connect connect_id reads)
