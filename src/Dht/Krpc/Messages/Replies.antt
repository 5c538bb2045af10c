-- ===== src/Dht/Krpc/Messages/Replies.antt =====
-- What `ParseKRPCResponse` makes of the replies and the errors that other nodes encode.
use bittorrent_client_go.Base.{
  ◌<◌, ◌≡◌, refl, ap, ℤ, pos, int_bound, FitsInt, true, List, [], ◌∷◌, Bytes, bytes_eq, bytes_gt,
  codes, ◌==◌, length, replicate, All, ok, arith,
}
use bittorrent_client_go.Bencode.{Value, str, int, list, dict, Items, nil, cons, end, field, get}
use bittorrent_client_go.Dht.Krpc.{encode}
use bittorrent_client_go.Dht.Krpc.Body.{IsCanonical, AllCanonical}
use bittorrent_client_go.Dht.Krpc.RoundTrip.{decode_value-encode}
use bittorrent_client_go.Dht.Node.{Node, compact_nodes_encode}
use bittorrent_client_go.Dht.Node.Compact.{IsCompact, compact_nodes_decode-encode}
use bittorrent_client_go.Dht.Krpc.Messages.{
  read_values, read_reply, read_error, read_response, parse_krpc_response,
}

unfoldable pub strings : List Bytes → Items
strings [] = nil
strings (s ∷ ss) = cons (str s) (strings ss)

strings-AllCanonical : (ss : List Bytes) → AllCanonical (strings ss)
unfolding strings AllCanonical
strings-AllCanonical [] = tt
strings-AllCanonical (s ∷ ss) = (tt, strings-AllCanonical ss)

read_values-strings : (ss : List Bytes) → read_values (strings ss) ≡ ss
unfolding strings read_values
read_values-strings [] = refl
read_values-strings (s ∷ ss) = ap (λ t. s ∷ t) (read_values-strings ss)

-- The reply of a node to a query for peers.
abbrev pub reply : Bytes → Bytes → List Node → Bytes → List Bytes → Value
reply txn_id id nodes token values = dict (
    field (codes "r")
      (dict (
        field (codes "id") (str id) (
          field (codes "nodes") (str (compact_nodes_encode nodes)) (
            field (codes "token") (str token)
              (field (codes "values") (list (strings values)) end)))))
      (field (codes "t") (str txn_id) (field (codes "y") (str (codes "r")) end)))

-- An error
abbrev pub failure : Bytes → ℤ → Bytes → Value
failure txn_id code msg = dict (
    field (codes "e") (list (cons (int code) (cons (str msg) nil)))
      (field (codes "t") (str txn_id) (field (codes "y") (str (codes "e")) end)))

-- The bencoding of a reply is parsed to its transaction ID, its node ID, its nodes, its token and
-- its values, if the ID has 20 bytes, the nodes fit their compact encoding, and the whole is shorter
-- than 2^63 bytes.
pub parse_krpc_response-reply :
    (txn_id id : Bytes) (nodes : List Node) (token : Bytes) (values : List Bytes)
    → length id ≡ 20
    → All IsCompact nodes
    → length (encode (reply txn_id id nodes token values)) < int_bound
    → parse_krpc_response (encode (reply txn_id id nodes token values))
      ≡ ok (record {
        transaction_id = txn_id;
        kind = codes "r";
        id = id;
        nodes = nodes;
        values = values;
        token = token;
        error_code = pos 0;
        error_msg = [];
      })
unfolding parse_krpc_response read_response read_reply IsCanonical bytes_gt bytes_eq get
parse_krpc_response-reply txn_id id nodes token values size compact small =
    let canonical : IsCanonical (reply txn_id id nodes token values) = (
      (refl, (refl, tt)),
      (
        (refl, (refl, (refl, tt))),
        tt,
        ((refl, (refl, tt)), tt, ((refl, tt), tt, (tt, strings-AllCanonical values, tt))),
      ),
      ((refl, tt), tt, (tt, tt, tt)),
    ) in
    let twenty : (length id == 20) ≡ true = ground arith in
    rw (decode_value-encode (reply txn_id id nodes token values) canonical small)
      (rw (twenty, compact_nodes_decode-encode nodes compact, read_values-strings values) refl)

-- The bencoding of an error is parsed to its transaction ID, its code and its text, if the code fits
-- an `int` and the whole is shorter than 2^63 bytes.
pub parse_krpc_response-failure :
    (txn_id : Bytes) (code : ℤ) (msg : Bytes)
    → FitsInt code
    → length (encode (failure txn_id code msg)) < int_bound
    → parse_krpc_response (encode (failure txn_id code msg))
      ≡ ok (record {
        transaction_id = txn_id;
        kind = codes "e";
        id = replicate 20 0;
        nodes = [];
        values = [];
        token = [];
        error_code = code;
        error_msg = msg;
      })
unfolding parse_krpc_response read_response read_error IsCanonical bytes_gt bytes_eq get
parse_krpc_response-failure txn_id code msg fits small =
    let canonical : IsCanonical (failure txn_id code msg) =
      ((refl, (refl, tt)), (fits, (tt, tt)), ((refl, tt), tt, (tt, tt, tt))) in
    rw (decode_value-encode (failure txn_id code msg) canonical small) refl
