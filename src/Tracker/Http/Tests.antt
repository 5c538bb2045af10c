-- ===== src/Tracker/Http/Tests.antt =====
-- Responses with two peers, whose addresses are written as they are.
use bittorrent_client_go.Base.{
  ◌≡◌, ◌<◌, refl, none, some, Option, [], ◌∷◌, Bytes, codes, length, ok, err, int_bound, bytes_eq,
  bytes_gt, arith, if◌then◌else◌, ◌==◌,
}
use bittorrent_client_go.Bencode.{str, list, get_raw}
use bittorrent_client_go.Bencode.Number.{print_nat, print_int}
use bittorrent_client_go.Dht.Krpc.{encode}
use bittorrent_client_go.Tracker.{Peer}
use bittorrent_client_go.Tracker.Udp.Answers.{put_peers}
use bittorrent_client_go.Tracker.Http.{bad_status, escape_info_hash, read_response_body}
use bittorrent_client_go.Tracker.Http.Forms.{response, items_of, read_response_body-forms}

abbrev to4 : Bytes → Option Bytes
to4 s = if length s == 4 then some s else none

reads : (ip : Bytes) → length ip ≡ 4 → to4 ip ≡ some ip
reads ip h = ground (arith, h)

abbrev one : Peer
one = record { ip = 10 ∷ 0 ∷ 0 ∷ 1 ∷ []; port = 6881 }

abbrev two : Peer
two = record { ip = 10 ∷ 0 ∷ 0 ∷ 2 ∷ []; port = 51413 }

escaped : escape_info_hash (0 ∷ 0xab ∷ 0x5f ∷ []) ≡ codes "%00%ab%5f"
unfolding escape_info_hash
escaped = refl

not_found : read_response_body to4 404 (codes "gone") ≡ err (bad_status 404 (codes "gone"))
unfolding read_response_body
not_found = refl

short_compact : length (encode (response 1800 (str (put_peers (one ∷ two ∷ []))))) < int_bound
unfolding encode put_peers bytes_gt print_nat get_raw bytes_eq print_int
short_compact = omega arith

short_listed :
    length (encode (response 1800 (list (items_of (λ ip. ip) (one ∷ two ∷ []))))) < int_bound
unfolding encode items_of bytes_gt print_nat get_raw bytes_eq print_int
short_listed = omega arith

read_response_body-forms_example :
    (read_response_body to4 200 (encode (response 1800 (str (put_peers (one ∷ two ∷ [])))))
      ≡ ok (one ∷ two ∷ []))
    × (read_response_body to4 200
          (encode (response 1800 (list (items_of (λ ip. ip) (one ∷ two ∷ [])))))
        ≡ ok (one ∷ two ∷ []))
read_response_body-forms_example =
    read_response_body-forms to4 (λ ip. ip) reads 1800 one (two ∷ []) (omega arith)
      ((refl, omega arith), ((refl, omega arith), tt)) short_compact short_listed
