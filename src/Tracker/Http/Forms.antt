-- ===== src/Tracker/Http/Forms.antt =====
-- The two forms in which a tracker sends its peers give the same result.
use bittorrent_client_go.Base.{
  ℕ, ◌%◌, ◌<◌, ◌≡◌, refl, pos, int_bound, FitsInt, Option, some, List, [], ◌∷◌, Bytes, bytes_eq,
  bytes_gt, codes, length, All, ok, arith,
}
use bittorrent_client_go.Bencode.{Value, str, int, list, dict, Items, nil, cons, end, field, get}
use bittorrent_client_go.Dht.Krpc.{encode}
use bittorrent_client_go.Dht.Krpc.Body.{IsCanonical, AllCanonical}
use bittorrent_client_go.Dht.Krpc.RoundTrip.{decode_value-encode}
use bittorrent_client_go.Tracker.{Peer}
use bittorrent_client_go.Tracker.Http.{read_items, read_peers_field, read_response_body}
use bittorrent_client_go.Tracker.Udp.Answers.{IsPeer, put_peers, read_peers-put_peers}

-- A response with this interval
abbrev pub response : ℕ → Value → Value
response interval peers =
    dict (field (codes "interval") (int (pos interval)) (field (codes "peers") peers end))

-- The peers one by one, with this text for an address
unfoldable pub items_of : (Bytes → Bytes) → List Peer → Items
items_of text [] = nil
items_of text (p ∷ ps) =
    cons (dict (field (codes "ip") (str (text p.ip)) (field (codes "port") (int (pos p.port)) end)))
      (items_of text ps)

module _ (to4 : Bytes → Option Bytes) (text : Bytes → Bytes)
    (reads : (ip : Bytes) → length ip ≡ 4 → to4 (text ip) ≡ some ip) where
  read_items-items_of : (ps : List Peer) → All IsPeer ps → read_items to4 (items_of text ps) ≡ ps
  unfolding read_items items_of get bytes_eq
  read_items-items_of [] h = refl
  read_items-items_of (p ∷ ps) h =
      let port : p.port % 65536 ≡ p.port = omega (arith, h.0.1) in
      rw (reads p.ip h.0.0, port, read_items-items_of ps h.1) refl

  items_of-AllCanonical : (ps : List Peer) → All IsPeer ps → AllCanonical (items_of text ps)
  unfolding items_of AllCanonical IsCanonical bytes_gt
  items_of-AllCanonical [] h = tt
  items_of-AllCanonical (p ∷ ps) h =
      let fits : p.port < int_bound = omega (arith, h.0.1) in
      (((refl, tt), tt, (tt, fits, tt)), items_of-AllCanonical ps h.1)

  -- For a tracker that sends at least one peer: the response that lists the peers in the compact form
  -- and the one that has a dictionary with the text of the address for each of them are read as the
  -- same list, if `net.ParseIP` reads that text back, and the responses are shorter than 2^63 bytes.
  pub read_response_body-forms :
      (interval : ℕ) (p : Peer) (ps : List Peer)
      → FitsInt (pos interval)
      → All IsPeer (p ∷ ps)
      → length (encode (response interval (str (put_peers (p ∷ ps))))) < int_bound
      → length (encode (response interval (list (items_of text (p ∷ ps))))) < int_bound
      → (read_response_body to4 200 (encode (response interval (str (put_peers (p ∷ ps)))))
          ≡ ok (p ∷ ps))
        × (read_response_body to4 200 (encode (response interval (list (items_of text (p ∷ ps)))))
            ≡ ok (p ∷ ps))
  unfolding read_response_body read_peers_field IsCanonical bytes_gt bytes_eq get
  read_response_body-forms interval p ps fits well small small' =
      let compact : IsCanonical (response interval (str (put_peers (p ∷ ps)))) =
        ((refl, tt), fits, (tt, tt, tt)) in
      let listed : IsCanonical (response interval (list (items_of text (p ∷ ps)))) =
        ((refl, tt), fits, (tt, items_of-AllCanonical (p ∷ ps) well, tt)) in
      (
        rw (decode_value-encode (response interval (str (put_peers (p ∷ ps)))) compact small)
            (rw (read_peers-put_peers (p ∷ ps) well) refl),
        rw (decode_value-encode (response interval (list (items_of text (p ∷ ps)))) listed small')
            (rw (read_items-items_of (p ∷ ps) well) refl),
      )
