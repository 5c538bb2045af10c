-- ===== src/Tracker/Udp/Answers.antt =====
-- A tracker that answers both requests.
use bittorrent_client_go.Base.{
  ℕ, zero, suc, ◌+◌, ◌*◌, ◌/◌, ◌%◌, ◌^◌, ◌≤◌, ◌<◌, ◌≡◌, refl, ap, ◌∙◌, true, false, List, [], ◌∷◌,
  ◌++◌, append-nil, Bytes, ltb, ◌==◌, length, length-append, take, replicate, take_past, All,
  Result, ok, ◌>>=◌, u32_of, u32_of-put_u32, put_u32, u32_mod, u16_of, arith,
}
use bittorrent_client_go.Tracker.{Peer, read_peers}
use bittorrent_client_go.Tracker.Udp.{
  Read, datagram, timed_out, UdpError, put_u64, u64_at, connect_request, read_connect, exchange,
  announce_request, read_announce, udp_connect, udp_announce, announce_after, get_peers_udp,
}

-- An IPv4 address and a port of 16 bits
abbrev pub IsPeer : Peer → Type 0
IsPeer p = (length p.ip ≡ 4) × (p.port < 65536)

-- The compact form of a list of peers
unfoldable pub put_peers : List Peer → Bytes
put_peers [] = []
put_peers (p ∷ ps) = p.ip ++ (p.port / 256 ∷ p.port % 256 ∷ put_peers ps)

-- The tracker's two responses
abbrev pub connect_response : ℕ → ℕ → Bytes
connect_response transaction_id connection_id =
    put_u32 0 ++ (put_u32 transaction_id ++ put_u64 connection_id)

abbrev pub announce_response : ℕ → ℕ → ℕ → ℕ → List Peer → Bytes
announce_response transaction_id interval leechers seeders peers =
    put_u32 1
    ++ (put_u32 transaction_id
        ++ (put_u32 interval ++ (put_u32 leechers ++ (put_u32 seeders ++ put_peers peers))))

unfoldable pub repeat : ℕ → Bytes → Bytes
repeat zero s = []
repeat (suc n) s = s ++ repeat n s

read_peers-peer :
    (ip : Bytes) (port : ℕ) (rest : Bytes)
    → length ip ≡ 4
    → port < 65536
    → read_peers (ip ++ (port / 256 ∷ port % 256 ∷ rest))
      ≡ (record { ip = ip; port = port } ∷ read_peers rest)
unfolding read_peers
read_peers-peer [] port rest e h = absurd (omega (arith, e))
read_peers-peer (a ∷ []) port rest e h = absurd (omega (arith, e))
read_peers-peer (a ∷ b ∷ []) port rest e h = absurd (omega (arith, e))
read_peers-peer (a ∷ b ∷ c ∷ []) port rest e h = absurd (omega (arith, e))
read_peers-peer (a ∷ b ∷ c ∷ d ∷ []) port rest e h =
    let same : u16_of (port / 256) (port % 256) ≡ port = omega arith in
    ap (λ n. record { ip = a ∷ b ∷ c ∷ d ∷ []; port = n } ∷ read_peers rest) same
read_peers-peer (a ∷ b ∷ c ∷ d ∷ x ∷ xs) port rest e h = absurd (omega (arith, e))

length-put_peers : (ps : List Peer) → All IsPeer ps → length (put_peers ps) ≡ 6 * length ps
unfolding put_peers
length-put_peers [] h = refl
length-put_peers (p ∷ ps) h = omega (
  arith,
  length-append p.ip (p.port / 256 ∷ p.port % 256 ∷ put_peers ps),
  length-put_peers ps h.1,
  h.0.0,
)

pub read_peers-put_peers : (ps : List Peer) → All IsPeer ps → read_peers (put_peers ps) ≡ ps
unfolding read_peers put_peers
read_peers-put_peers [] h = refl
read_peers-put_peers (p ∷ ps) h =
    read_peers-peer p.ip p.port (put_peers ps) h.0.0 h.0.1
    ∙ ap (λ qs. p ∷ qs) (read_peers-put_peers ps h.1)

u64_at-put_u64 : (n : ℕ) → n < u32_mod * u32_mod → u64_at (put_u64 n) ≡ n
u64_at-put_u64 n h =
    let high = u32_of-put_u32 (n / u32_mod % u32_mod) (omega arith) in
    let low = u32_of-put_u32 (n % u32_mod) (omega arith) in omega (arith, high, low, h)

exchange_lem :
    (size i : ℕ) (req s : Bytes) (reads : List Read)
    → i < 2
    → exchange 2 size req (replicate i timed_out ++ (datagram s ∷ reads))
      ≡ (repeat (i + 1) req, ok (take size s, reads))
unfolding exchange repeat
exchange_lem size zero req s reads h = rw (append-nil req) refl
exchange_lem size (suc zero) req s reads h = rw (append-nil req) refl
exchange_lem size (suc (suc i)) req s reads h = absurd (omega (arith, h))

read_connect-connect_response :
    (id connection_id : ℕ)
    → id < u32_mod
    → connection_id < u32_mod * u32_mod
    → read_connect id (connect_response id connection_id) ≡ ok connection_id
unfolding read_connect
read_connect-connect_response id connection_id h k =
    let same = u32_of-put_u32 id h in
    let whole = u64_at-put_u64 connection_id k in
    let own : (u32_of (id / 2 ^ 24 % 256) (id / 2 ^ 16 % 256) (id / 2 ^ 8 % 256) (id % 256) == id)
        ≡ true =
      ground (arith, same) in
    rw (own, whole) refl

read_announce-announce_response :
    (id interval leechers seeders : ℕ) (peers : List Peer)
    → id < u32_mod
    → All IsPeer peers
    → read_announce id (announce_response id interval leechers seeders peers) ≡ ok peers
unfolding read_announce
read_announce-announce_response id interval leechers seeders peers h k =
    let same = u32_of-put_u32 id h in
    let whole = read_peers-put_peers peers k in
    let own : (u32_of (id / 2 ^ 24 % 256) (id / 2 ^ 16 % 256) (id / 2 ^ 8 % 256) (id % 256) == id)
        ≡ true =
      ground (arith, same) in
    let long : ltb (length (announce_response id interval leechers seeders peers)) 20 ≡ false =
      ground arith in
    rw (long, own, whole) refl

udp_connect-answer :
    (id connection_id i : ℕ) (reads : List Read)
    → id < u32_mod
    → connection_id < u32_mod * u32_mod
    → i < 2
    → udp_connect id
        (replicate i timed_out ++ (datagram (connect_response id connection_id) ∷ reads))
      ≡ (repeat (i + 1) (connect_request id), ok (connection_id, reads))
unfolding udp_connect
udp_connect-answer id connection_id i reads h k hi =
    let sent =
      exchange_lem 16 i (connect_request id) (connect_response id connection_id) reads hi in
    let read = read_connect-connect_response id connection_id h k in
    rw (sent, read, udp_connect) refl

udp_announce-answer :
    (id key connection_id left interval leechers seeders j : ℕ) (info_hash : Bytes)
    (peers : List Peer) (reads : List Read)
    → id < u32_mod
    → j < 2
    → All IsPeer peers
    → length peers ≤ 679
    → udp_announce id key connection_id info_hash left (
        replicate j timed_out
        ++ (datagram (announce_response id interval leechers seeders peers) ∷ reads))
      ≡ (repeat (j + 1) (announce_request id key connection_id info_hash left), ok peers)
unfolding udp_announce
udp_announce-answer id key connection_id left interval leechers seeders j info_hash peers reads h hj
      well few =
    let response = announce_response id interval leechers seeders peers in
    let short : length response ≤ 4096 = omega (arith, length-put_peers peers well, few) in
    let whole : take 4096 response ≡ response = take_past 4096 response short in
    let sent =
      exchange_lem 4096 j (announce_request id key connection_id info_hash left) response reads
        hj in
    let read = read_announce-announce_response id interval leechers seeders peers h well in
    let same : read_announce id (take 4096 response) ≡ ok peers =
      ap (λ t. read_announce id t) whole ∙ read in
    ap
      (λ (r : Bytes × Result UdpError (Bytes × List Read)).
        (r.0, r.1 >>= λ (resp, rest). read_announce id resp))
      sent
    ∙ ap (λ a. (repeat (j + 1) (announce_request id key connection_id info_hash left), a)) same

-- If the tracker answers the connect request at the first or the second try, with a connection ID and
-- the request's transaction ID, and the announce request likewise, with at most 679 peers, then
-- `GetPeersUDP` returns these peers, and what it sent is each request once for each try, the second one with the
-- connection ID.
pub get_peers_udp-answers :
    (connect_id announce_id key left connection_id interval leechers seeders i j : ℕ)
    (info_hash : Bytes) (peers : List Peer) (reads : List Read)
    → connect_id < u32_mod
    → announce_id < u32_mod
    → connection_id < u32_mod * u32_mod
    → i < 2
    → j < 2
    → All IsPeer peers
    → length peers ≤ 679
    → get_peers_udp connect_id announce_id key info_hash left (
        replicate i timed_out
        ++ (datagram (connect_response connect_id connection_id)
            ∷ (replicate j timed_out
                ++ (datagram (announce_response announce_id interval leechers seeders peers)
                    ∷ reads))))
      ≡ (
        repeat (i + 1) (connect_request connect_id)
            ++ repeat (j + 1) (announce_request announce_id key connection_id info_hash left),
        ok peers,
      )
unfolding get_peers_udp announce_after
get_peers_udp-answers connect_id announce_id key left connection_id interval leechers seeders i j
      info_hash peers reads hc ha hk hi hj well few =
    let rest =
      replicate j timed_out
      ++ (datagram (announce_response announce_id interval leechers seeders peers) ∷ reads) in
    let connected = udp_connect-answer connect_id connection_id i rest hc hk hi in
    let announced =
      udp_announce-answer announce_id key connection_id left interval leechers seeders j info_hash
        peers reads ha hj well few in
    ap (announce_after announce_id key info_hash left) connected
    ∙ ap
        (λ (r : Bytes × Result UdpError (List Peer)).
          (repeat (i + 1) (connect_request connect_id) ++ r.0, r.1))
        announced
