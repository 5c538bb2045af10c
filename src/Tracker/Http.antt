-- ===== src/Tracker/Http.antt =====
-- tracker/tracker.go: the HTTP tracker. `http.Get` is an argument that gives the status and the body,
-- or `none` for an error, and so are the parts of a parsed URL and `net.ParseIP` with `To4`.
pub mod Forms
mod Tests
use bittorrent_client_go.Base.{
  hex_digit, ℕ, zero, suc, ◌+◌, ◌-◌, ◌*◌, ◌/◌, ◌%◌, ◌^◌, ℤ, pos, negsuc, Bool, true, false, not,
  ◌&&◌, ◌||◌, Option, none, some, List, [], ◌∷◌, ◌++◌, Bytes, codes, bytes_eq, ltb, ◌==◌,
  if◌then◌else◌, length, Result, ok, err, panic, ◌>>=◌,
}
use bittorrent_client_go.Bencode.{
  Value, int, str, list, dict, Items, nil, cons, Fields, Error, get, decode_value,
}
use bittorrent_client_go.Bencode.Assert.{string_of, int_of, dict_of}
use bittorrent_client_go.Bencode.Number.{print_int}
use bittorrent_client_go.Tracker.{Peer, read_peers}
use bittorrent_client_go.Tracker.Udp.{UdpError}

pub data TrackerError : Type 0 where
  bad_url unsupported_scheme getting invalid_map no_peers_field unsupported_format no_peers :
      TrackerError
  bad_status : ℕ → Bytes → TrackerError
  decoding : Error → TrackerError
  failure_reason : Value → TrackerError
  udp : UdpError → TrackerError

-- `escapeInfoHash`
unfoldable pub escape_info_hash : Bytes → Bytes
escape_info_hash [] = []
escape_info_hash (b ∷ bs) =
    b'%' ∷ hex_digit (b / 16 % 16) ∷ hex_digit (b % 16) ∷ escape_info_hash bs

-- The query of the request; `Encode` writes the parameters in the order of their names, and none of
-- these has a byte to escape.
unfoldable pub tracker_query : Bytes → ℤ → Bytes
unfolding escape_info_hash print_int
tracker_query info_hash left =
    codes "info_hash="
    ++ (escape_info_hash info_hash
        ++ (codes "&compact=1&downloaded=0&left="
            ++ (print_int left ++ codes "&peer_id=-MT1230-rT6yUi8OpLkJ&port=6881&uploaded=0")))

-- `u.RawQuery` with the query added
abbrev pub add_query : Bytes → Bytes → Bytes
add_query [] query = query
add_query raw query = raw ++ (b'&' ∷ query)

-- `uint16(portVal)`
abbrev pub uint16_of : ℤ → ℕ
uint16_of (pos n) = n % 65536
uint16_of (negsuc n) = 65535 - n % 65536

module _ (to4 : Bytes → Option Bytes) where
  -- A peer in a dictionary, by its `ip` and its `port`
  abbrev pub peer_at : Option Bytes → Option ℤ → Option Peer
  peer_at none port = none
  peer_at (some ip) none = none
  peer_at (some ip) (some port) = elim (to4 ip) [
    | none ↦ none
    | some four ↦ some (record { ip = four; port = uint16_of port })
  ]

  abbrev pub read_peer : Option Fields → Option Peer
  read_peer none = none
  read_peer (some d) = peer_at (string_of (get (codes "ip") d)) (int_of (get (codes "port") d))

  -- The loop over a list of dictionaries; an item that is not a peer is passed over.
  unfoldable pub read_items : Items → List Peer
  read_items nil = []
  read_items (cons v vs) =
      let rest = read_items vs in
      elim (read_peer (dict_of (some v))) [ none ↦ rest | some p ↦ p ∷ rest ]

  -- The peers, in either form
  unfoldable pub read_peers_field : Option Value → Result TrackerError (List Peer)
  unfolding read_items read_peers
  read_peers_field none = err no_peers_field
  read_peers_field (some (str s)) = ok (read_peers s)
  read_peers_field (some (list vs)) = ok (read_items vs)
  read_peers_field (some (int i)) = err unsupported_format
  read_peers_field (some (dict d)) = err unsupported_format

  abbrev pub some_peers : List Peer → Result TrackerError (List Peer)
  some_peers [] = err no_peers
  some_peers (p ∷ ps) = ok (p ∷ ps)

  abbrev pub unless_failed : Option Value → Fields → Result TrackerError (List Peer)
  unless_failed (some reason) d = err (failure_reason reason)
  unless_failed none d = read_peers_field (get (codes "peers") d) >>= λ ps. some_peers ps

  abbrev pub read_dict : Option Fields → Result TrackerError (List Peer)
  read_dict none = err invalid_map
  read_dict (some d) = unless_failed (get (codes "failure reason") d) d

  abbrev pub decoded : Result Error Value → Result TrackerError Value
  decoded (ok v) = ok v
  decoded (err e) = err (decoding e)
  decoded panic = panic

  -- What `getPeersHTTP` makes of the response
  unfoldable pub read_response_body : ℕ → Bytes → Result TrackerError (List Peer)
  unfolding read_peers_field
  read_response_body status body =
      if not (status == 200)
      then err (bad_status status body)
      else (decoded (decode_value body) >>= λ v. read_dict (dict_of (some v)))

  -- `getPeersHTTP` for a URL of this raw query; `http_get` takes the whole query.
  unfoldable pub get_peers_http :
      (Bytes → Option (ℕ × Bytes)) → Bytes → Bytes → ℤ → Result TrackerError (List Peer)
  unfolding read_response_body tracker_query
  get_peers_http http_get raw_query info_hash left =
      elim (http_get (add_query raw_query (tracker_query info_hash left))) [
        | none ↦ err getting
        | some (status, body) ↦ read_response_body status body
      ]

abbrev pub udp_result : Result UdpError (List Peer) → Result TrackerError (List Peer)
udp_result (ok ps) = ok ps
udp_result (err e) = err (udp e)
udp_result panic = panic

-- `GetPeers` by the scheme of the URL, `none` where it is not parsed, on what the two clients return
unfoldable pub get_peers :
    Option Bytes
    → Result TrackerError (List Peer)
    → Result UdpError (List Peer)
    → Result TrackerError (List Peer)
get_peers none by_http by_udp = err bad_url
get_peers (some scheme) by_http by_udp =
    if bytes_eq scheme (codes "http") || bytes_eq scheme (codes "https")
    then by_http
    else if bytes_eq scheme (codes "udp")
    then udp_result by_udp
    else err unsupported_scheme
