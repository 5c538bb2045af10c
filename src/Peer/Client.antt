-- ===== src/Peer/Client.antt =====
-- peer/client.go: a connection on which one goroutine sends and waits for answers. What
-- `ReadMessage` returns, call by call, is a list; the buffered messages stand in front of what the
-- connection delivers. Writes succeed, and what is sent is appended to `sent`.
pub mod Pieces
pub mod Faults
pub mod Extension
mod Tests
use bittorrent_client_go.Base.{
  ℕ, zero, suc, ◌+◌, ◌-◌, ◌*◌, ◌/◌, ℤ, pos, Bool, true, false, not, ◌&&◌, Option, none, some, List,
  [], ◌∷◌, ◌++◌, map, Bytes, codes, ltb, ◌==◌, if◌then◌else◌, length, drop, replicate, copy_at,
  Result, ok, err, panic, ◌>>=◌, u32_of, put_u32, u32_mod, ◌%◌,
}
use bittorrent_client_go.Bencode.{get, decode_dict, Dict, Error}
use bittorrent_client_go.Bencode.Assert.{int_of, dict_of}
use bittorrent_client_go.Peer.Message.{ReadError, write_message}
use bittorrent_client_go.Peer.Handshake.{do_handshake, build_handshake}

-- What a call of `ReadMessage` returns; the payload of a keepalive is `none`.
pub data Incoming : Type 0 where
  message : ℕ → Option Bytes → Incoming
  timed_out : Incoming
  failed : Incoming

-- The fields of `Client` that the goroutine's own methods use
pub record Client : Type 0 where
  pub address : Bytes
  pub peer_id : Bytes
  pub metadata_ext_id : ℤ
  pub supports_extensions : Bool
  pub handshake_sent : Bool
  pub incoming : List Incoming
  pub sent : Bytes

pub data ClientError : Type 0 where
  handshaking : ReadError → ClientError
  no_extensions reading : ClientError

abbrev pub handshaken : {A : Type 0} → Result ReadError A → Result ClientError A
handshaken (ok a) = ok a
handshaken (err e) = err (handshaking e)
handshaken panic = panic

-- The extension handshake that is sent: {"m": {"ut_metadata": 1}}
abbrev pub ext_handshake : Bytes
ext_handshake = 0 ∷ codes "d1:md11:ut_metadatai1eee"

-- `id == MsgExtension && len(payload) > 1 && payload[0] == 0`
abbrev pub is_ext_handshake : ℕ → Bytes → Bool
is_ext_handshake id [] = false
is_ext_handshake id (first ∷ rest) = id == 20 && (not (length rest == 0) && first == 0)

-- `extDict["m"]["ut_metadata"]`
abbrev pub metadata_id : Dict → Option ℤ
metadata_id d = elim (dict_of (get (codes "m") d.fields)) [
  | none ↦ none
  | some m ↦ int_of (get (codes "ut_metadata") m)
]

abbrev pub with_id : Client → Option ℤ → Client
with_id c none = c
with_id c (some i) = record c { metadata_ext_id = i }

-- What `NewClient` does with the dictionary of an extension handshake; one that is not decoded is
-- passed over.
abbrev pub after_decoding : Client → Result Error (Dict × Bytes) → Result ClientError Client
after_decoding c (ok (d, rest)) = ok (with_id c (metadata_id d))
after_decoding c (err e) = ok c
after_decoding c panic = panic

-- One of the first messages
unfoldable pub take_initial : ℕ → Bytes → Client → Result ClientError Client
take_initial id payload c =
    if id == 5
    then ok c
    else if is_ext_handshake id payload
    then after_decoding c (decode_dict (length (drop 1 payload)) (drop 1 payload))
    else ok (record c { incoming = c.incoming ++ (message id (some payload) ∷ []) })

-- The loop of `NewClient` over the first messages, up to a timeout
unfoldable pub read_initial : List Incoming → Client → Result ClientError Client
unfolding take_initial
read_initial [] c = err reading
read_initial (timed_out ∷ stream) c = ok (record c { incoming = c.incoming ++ stream })
read_initial (failed ∷ stream) c = err reading
read_initial (message id none ∷ stream) c = read_initial stream c
read_initial (message id (some payload) ∷ stream) c =
    take_initial id payload c >>= λ d. read_initial stream d

-- `NewClient` behind the dialing, on the bytes of the peer's handshake and the messages after it
unfoldable pub new_client : Bytes → Bytes → Bool → Bytes → List Incoming → Result ClientError Client
unfolding do_handshake build_handshake read_initial
new_client address info_hash extensions handshake stream =
    handshaken (do_handshake handshake) >>= λ (answer, rest).
    if extensions && not answer.extensions
    then err no_extensions
    else (read_initial stream (record {
      address = address;
      peer_id = answer.peer_id;
      metadata_ext_id = pos 0;
      supports_extensions = answer.extensions;
      handshake_sent = extensions;
      incoming = [];
      sent =
          build_handshake info_hash extensions
          ++ (if extensions then write_message 20 ext_handshake else []);
    }))

-- `SendInterested`
unfoldable pub send_interested : Client → Client
send_interested c = record c { sent = c.sent ++ write_message 2 [] }

-- The loop of `WaitForUnchoke`: the messages left
unfoldable pub skip_to_unchoke : List Incoming → Result ClientError (List Incoming)
skip_to_unchoke [] = err reading
skip_to_unchoke (timed_out ∷ stream) = err reading
skip_to_unchoke (failed ∷ stream) = err reading
skip_to_unchoke (message id none ∷ stream) = skip_to_unchoke stream
skip_to_unchoke (message id (some payload) ∷ stream) =
    let rest = skip_to_unchoke stream in if id == 1 then ok stream else rest

-- `WaitForUnchoke`
unfoldable pub wait_for_unchoke : Client → Result ClientError Client
unfolding skip_to_unchoke
wait_for_unchoke c = skip_to_unchoke c.incoming >>= λ stream. ok (record c { incoming = stream })

abbrev pub block_size : ℕ
block_size = 16384

-- `(pieceLength + blockSize - 1) / blockSize`
abbrev pub blocks_of : ℕ → ℕ
blocks_of piece_length = (piece_length + block_size - 1) / block_size

-- The payload of a request or of a cancel
abbrev pub block_payload : ℕ → ℕ → ℕ → Bytes
block_payload index begin len =
    put_u32 (index % u32_mod) ++ (put_u32 (begin % u32_mod) ++ put_u32 (len % u32_mod))

-- The requests for the `r` blocks of a piece from block `i` on
unfoldable pub block_requests : ℕ → ℕ → ℕ → ℕ → Bytes
block_requests zero i index piece_length = []
block_requests (suc r) i index piece_length =
    let offset = i * block_size in
    let len =
      if ltb piece_length (offset + block_size) then piece_length - offset else block_size in
    write_message 6 (block_payload index offset len) ++ block_requests r (i + 1) index piece_length

-- `copy(pieceData[begin:], payload[8:])`, which panics on a payload of fewer than 8 bytes and on a
-- begin past the end of the piece.
unfoldable pub put_block : Bytes → Bytes → Result ClientError Bytes
put_block (a ∷ b ∷ c ∷ d ∷ e ∷ f ∷ g ∷ h ∷ block) piece_data =
    let begin = u32_of e f g h in
    if ltb (length piece_data) begin then panic else ok (copy_at begin piece_data block)
put_block _ piece_data = panic

-- The loop of `DownloadPiece` over the answers while `n` blocks are missing
unfoldable pub receive_blocks :
    List Incoming → ℕ → Bytes → Result ClientError (Bytes × List Incoming)
unfolding put_block
receive_blocks stream zero piece_data = ok (piece_data, stream)
receive_blocks [] (suc n) piece_data = err reading
receive_blocks (timed_out ∷ stream) (suc n) piece_data = err reading
receive_blocks (failed ∷ stream) (suc n) piece_data = err reading
receive_blocks (message id none ∷ stream) (suc n) piece_data =
    receive_blocks stream (suc n) piece_data
receive_blocks (message id (some payload) ∷ stream) (suc n) piece_data =
    let skipped = receive_blocks stream (suc n) piece_data in
    let stored = put_block payload piece_data >>= λ next. receive_blocks stream n next in
    if id == 7 then stored else skipped

-- `DownloadPiece`
unfoldable pub download_piece : ℕ → ℕ → Client → Result ClientError (Bytes × Client)
unfolding block_requests receive_blocks
download_piece index piece_length c =
    let n = blocks_of piece_length in
    receive_blocks c.incoming n (replicate piece_length 0) >>= λ (piece_data, stream). ok (
      piece_data,
      record c { incoming = stream; sent = c.sent ++ block_requests n 0 index piece_length },
    )
