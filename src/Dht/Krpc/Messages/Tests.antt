-- ===== src/Dht/Krpc/Messages/Tests.antt =====
-- A query, and a reply with a node and two values.
use bittorrent_client_go.Base.{◌≡◌, refl, pos, [], ◌∷◌, Bytes, bytes_eq, bytes_gt, codes, ok, arith}
use bittorrent_client_go.Bencode.Number.{print_nat, print_int}
use bittorrent_client_go.Bencode.{get_raw}
use bittorrent_client_go.Dht.Krpc.{encode}
use bittorrent_client_go.Dht.Node.{Node, compact_nodes_encode}
use bittorrent_client_go.Dht.Krpc.Messages.{build_ping_query, parse_krpc_response}
use bittorrent_client_go.Dht.Krpc.Messages.Replies.{strings, reply, parse_krpc_response-reply}

abbrev twenty : Bytes
twenty = codes "0123456789abcdefghij"

abbrev some_node : Node
some_node = record { id = twenty; ip = 10 ∷ 0 ∷ 0 ∷ 1 ∷ []; port = 6881 }

ping :
    build_ping_query (codes "7") twenty
    ≡ codes "d1:ad2:id20:0123456789abcdefghije1:q4:ping1:t1:71:y1:qe"
unfolding build_ping_query encode print_nat bytes_eq bytes_gt get_raw
ping = refl

parse_krpc_response-reply_example :
    parse_krpc_response
      (encode (reply (codes "7") twenty (some_node ∷ []) (codes "tok") (codes "abcdef" ∷ [])))
    ≡ ok (record {
      transaction_id = codes "7";
      kind = codes "r";
      id = twenty;
      nodes = some_node ∷ [];
      values = codes "abcdef" ∷ [];
      token = codes "tok";
      error_code = pos 0;
      error_msg = [];
    })
unfolding encode print_nat print_int bytes_eq bytes_gt get_raw compact_nodes_encode strings
parse_krpc_response-reply_example =
    parse_krpc_response-reply (codes "7") twenty (some_node ∷ []) (codes "tok")
      (codes "abcdef" ∷ []) refl ((refl, refl, omega arith), tt) (omega arith)
