-- ===== src/Dht/Krpc/Messages.antt =====
-- dht/krpc.go: the queries, and the parser of responses. The random number of a transaction ID is an
-- argument. The map of a query is listed in the order of its keys.
pub mod Replies
mod Tests
use bittorrent_client_go.Base.{
  ℕ, ℤ, pos, Bool, true, false, ◌&&◌, Option, none, some, List, [], ◌∷◌, Bytes, bytes_eq, codes,
  ◌==◌, if◌then◌else◌, length, replicate, Result, ok, err, panic, ◌>>=◌,
}
use bittorrent_client_go.Bencode.Number.{print_nat}
use bittorrent_client_go.Bencode.{
  Value, str, int, list, dict, Items, nil, cons, Fields, end, field, get, Error, decode_value,
}
use bittorrent_client_go.Bencode.Assert.{string_of, int_of, list_of, dict_of, name_or_empty}
use bittorrent_client_go.Dht.Krpc.{encode}
use bittorrent_client_go.Dht.Node.{Node, compact_nodes_decode}

-- `GenerateTransactionID`, of a random number below 65536
unfoldable pub generate_transaction_id : ℕ → Bytes
unfolding print_nat
generate_transaction_id random = print_nat random

-- A query of that name with these arguments
abbrev pub query : Bytes → Bytes → Fields → Value
query txn_id name arguments = dict (
    field (codes "a") (dict arguments) (
      field (codes "q") (str name)
        (field (codes "t") (str txn_id) (field (codes "y") (str (codes "q")) end))))

-- `BuildPingQuery`
unfoldable pub build_ping_query : Bytes → Bytes → Bytes
build_ping_query txn_id node_id =
    encode (query txn_id (codes "ping") (field (codes "id") (str node_id) end))

-- `BuildFindNodeQuery`
unfoldable pub build_find_node_query : Bytes → Bytes → Bytes → Bytes
build_find_node_query txn_id node_id target = encode (
    query txn_id (codes "find_node")
      (field (codes "id") (str node_id) (field (codes "target") (str target) end)))

-- `BuildGetPeersQuery`
unfoldable pub build_get_peers_query : Bytes → Bytes → Bytes → Bytes
build_get_peers_query txn_id node_id info_hash = encode (
    query txn_id (codes "get_peers")
      (field (codes "id") (str node_id) (field (codes "info_hash") (str info_hash) end)))

pub record KrpcResponse : Type 0 where
  pub transaction_id : Bytes
  pub kind : Bytes
  pub id : Bytes
  pub nodes : List Node
  pub values : List Bytes
  pub token : Bytes
  pub error_code : ℤ
  pub error_msg : Bytes

pub data KrpcError : Type 0 where
  not_a_dict : KrpcError
  decoding : Error → KrpcError

abbrev pub int_or_zero : Option ℤ → ℤ
int_or_zero none = pos 0
int_or_zero (some i) = i

-- The error's code and text, if the list has two items
unfoldable pub read_error : Option Items → KrpcResponse → KrpcResponse
read_error (some (cons code (cons msg rest))) resp = record resp {
  error_code = int_or_zero (int_of (some code));
  error_msg = name_or_empty (string_of (some msg));
}
read_error _ resp = resp

-- `copy(resp.ID[:], id)` for an ID of 20 bytes
abbrev pub id_or_zeros : Option Bytes → Bytes
id_or_zeros none = replicate 20 0
id_or_zeros (some id) = if length id == 20 then id else replicate 20 0

abbrev pub nodes_or_none : Option Bytes → List Node
nodes_or_none none = []
nodes_or_none (some nodes) = compact_nodes_decode nodes

-- The strings among the values
unfoldable pub read_values : Items → List Bytes
read_values nil = []
read_values (cons (str s) vs) = s ∷ read_values vs
read_values (cons _ vs) = read_values vs

abbrev pub values_or_none : Option Items → List Bytes
values_or_none none = []
values_or_none (some vs) = read_values vs

unfoldable pub read_reply : Option Fields → KrpcResponse → KrpcResponse
unfolding read_values
read_reply none resp = resp
read_reply (some r) resp = record resp {
  id = id_or_zeros (string_of (get (codes "id") r));
  token = name_or_empty (string_of (get (codes "token") r));
  nodes = nodes_or_none (string_of (get (codes "nodes") r));
  values = values_or_none (list_of (get (codes "values") r));
}

-- `ParseKRPCResponse` behind the decoder
unfoldable pub read_response : Fields → KrpcResponse
unfolding read_error read_reply
read_response msg =
    let kind = name_or_empty (string_of (get (codes "y") msg)) in
    let resp : KrpcResponse = record {
      transaction_id = name_or_empty (string_of (get (codes "t") msg));
      kind = kind;
      id = replicate 20 0;
      nodes = [];
      values = [];
      token = [];
      error_code = pos 0;
      error_msg = [];
    } in
    if bytes_eq kind (codes "e")
    then read_error (list_of (get (codes "e") msg)) resp
    else read_reply (dict_of (get (codes "r") msg)) resp

abbrev pub as_dict : Option Fields → Result KrpcError KrpcResponse
as_dict none = err not_a_dict
as_dict (some msg) = ok (read_response msg)

abbrev pub decoded : Result Error Value → Result KrpcError Value
decoded (ok v) = ok v
decoded (err e) = err (decoding e)
decoded panic = panic

-- `ParseKRPCResponse`
unfoldable pub parse_krpc_response : Bytes → Result KrpcError KrpcResponse
unfolding read_response
parse_krpc_response bytes = decoded (decode_value bytes) >>= λ v. as_dict (dict_of (some v))
