-- ===== src/Peer/Client/Extension.antt =====
-- peer/extension.go: the extension handshake, and the metadata of a magnet link in pieces.
pub mod Metadata
use bittorrent_client_go.Base.{
  ℕ, zero, suc, ◌+◌, ◌-◌, ◌*◌, ◌/◌, ◌%◌, ℤ, pos, negsuc, Bool, true, false, not, ◌&&◌, Option, none,
  some, List, [], ◌∷◌, ◌++◌, Bytes, codes, ltb, leb, ◌==◌, if◌then◌else◌, length, take, drop,
  replicate, copy_at, Result, ok, err, panic, ◌>>=◌,
}
use bittorrent_client_go.Bencode.Number.{print_nat}
use bittorrent_client_go.Bencode.{get, decode_dict, Dict, Fields, Error}
use bittorrent_client_go.Bencode.Assert.{int_of, dict_of}
use bittorrent_client_go.Peer.Message.{write_message}
use bittorrent_client_go.Peer.Client.{
  Incoming, message, timed_out, failed, Client, ext_handshake, is_ext_handshake, block_size,
  blocks_of,
}

pub data ExtensionError : Type 0 where
  reading missing_m missing_ut_metadata missing_msg_type rejected invalid_size : ExtensionError
  decoding : Error → ExtensionError

abbrev pub decoded : {A : Type 0} → Result Error A → Result ExtensionError A
decoded (ok a) = ok a
decoded (err e) = err (decoding e)
decoded panic = panic

abbrev pub required : {A : Type 0} → Option A → ExtensionError → Result ExtensionError A
required (some a) e = ok a
required none e = err e

-- `DoExtensionHandshake` on the payload of the peer's handshake
unfoldable pub read_ext_handshake : Bytes → Result ExtensionError ℤ
read_ext_handshake payload =
    decoded (decode_dict (length (drop 1 payload)) (drop 1 payload)) >>= λ (d, rest).
    required (dict_of (get (codes "m") d.fields)) missing_m >>= λ m.
    required (int_of (get (codes "ut_metadata") m)) missing_ut_metadata

-- Its loop: the peer's extension ID, and the messages left
unfoldable pub find_ext_handshake : List Incoming → Result ExtensionError (ℤ × List Incoming)
unfolding read_ext_handshake
find_ext_handshake [] = err reading
find_ext_handshake (timed_out ∷ stream) = err reading
find_ext_handshake (failed ∷ stream) = err reading
find_ext_handshake (message id none ∷ stream) = find_ext_handshake stream
find_ext_handshake (message id (some payload) ∷ stream) =
    let later = find_ext_handshake stream in
    let found = read_ext_handshake payload >>= λ i. ok (i, stream) in
    if is_ext_handshake id payload then found else later

-- `DoExtensionHandshake`
unfoldable pub do_extension_handshake : Client → Result ExtensionError (ℤ × Client)
unfolding find_ext_handshake
do_extension_handshake c =
    let sent = if c.handshake_sent then c.sent else c.sent ++ write_message 20 ext_handshake in
    find_ext_handshake c.incoming >>= λ (i, stream).
    ok (i, record c { sent = sent; handshake_sent = true; incoming = stream })

abbrev pub is_zero : ℤ → Bool
is_zero (pos n) = n == 0
is_zero (negsuc n) = false

-- `SetupExtensions` of peer/client.go
unfoldable pub setup_extensions : Client → Result ExtensionError Client
unfolding do_extension_handshake
setup_extensions c =
    if is_zero c.metadata_ext_id
    then (do_extension_handshake c >>= λ (i, d). ok (record d { metadata_ext_id = i }))
    else ok c

-- `byte(i)`
abbrev pub byte_of : ℤ → ℕ
byte_of (pos n) = n % 256
byte_of (negsuc n) = 255 - n % 256

abbrev pub is_two : ℤ → Bool
is_two (pos n) = n == 2
is_two (negsuc n) = false

abbrev pub int_or_zero : Option ℤ → ℤ
int_or_zero none = pos 0
int_or_zero (some i) = i

-- The request for a piece of the metadata: {"msg_type": 0, "piece": piece}
unfoldable pub metadata_request : ℤ → ℕ → Bytes
unfolding print_nat
metadata_request ext_id piece =
    byte_of ext_id ∷ (codes "d8:msg_typei0e5:piecei" ++ (print_nat piece ++ codes "ee"))

-- What `requestMetadataPiece` makes of the payload of an extension message; `payload[1:]` of an empty
-- one panics.
unfoldable pub read_metadata : Bytes → Result ExtensionError (Bytes × ℤ)
read_metadata [] = panic
read_metadata (ext ∷ body) = decoded (decode_dict (length body) body) >>= λ (d, raw_metadata).
    required (int_of (get (codes "msg_type") d.fields)) missing_msg_type >>= λ msg_type.
    if is_two msg_type
    then err rejected
    else ok (raw_metadata, int_or_zero (int_of (get (codes "total_size") d.fields)))

-- Its loop
unfoldable pub find_metadata : List Incoming → Result ExtensionError ((Bytes × ℤ) × List Incoming)
unfolding read_metadata
find_metadata [] = err reading
find_metadata (timed_out ∷ stream) = err reading
find_metadata (failed ∷ stream) = err reading
find_metadata (message id none ∷ stream) = find_metadata stream
find_metadata (message id (some payload) ∷ stream) =
    let later = find_metadata stream in
    let found = read_metadata payload >>= λ r. ok (r, stream) in if id == 20 then found else later

-- `requestMetadataPiece`
unfoldable pub request_metadata_piece :
    ℤ → ℕ → Client → Result ExtensionError ((Bytes × ℤ) × Client)
unfolding find_metadata metadata_request
request_metadata_piece ext_id piece c = find_metadata c.incoming >>= λ (r, stream). ok (
  r,
  record c { incoming = stream; sent = c.sent ++ write_message 20 (metadata_request ext_id piece) },
)

-- The loop of `RequestMetadata` for the `r` pieces from piece `p` on
unfoldable pub request_pieces :
    ℕ → ℕ → ℤ → ℕ → Bytes → Client → Result ExtensionError (Bytes × Client)
unfolding request_metadata_piece
request_pieces zero p ext_id total_size metadata c = ok (metadata, c)
request_pieces (suc r) p ext_id total_size metadata c =
    request_metadata_piece ext_id p c >>= λ ((piece_data, size), d).
    let offset = p * block_size in
    let cut =
      if ltb total_size (offset + length piece_data)
      then take (total_size - offset) piece_data
      else piece_data in
    request_pieces r (p + 1) ext_id total_size (copy_at offset metadata cut) d

-- `RequestMetadata` behind the first piece
unfoldable pub assemble : ℤ → Bytes → ℤ → Client → Result ExtensionError (Bytes × Client)
unfolding request_pieces
assemble ext_id first_piece (negsuc n) c = err invalid_size
assemble ext_id first_piece (pos n) c =
    if n == 0
    then err invalid_size
    else if leb n (length first_piece)
    then ok (take n first_piece, c)
    else request_pieces (blocks_of n - 1) 1 ext_id n (copy_at 0 (replicate n 0) first_piece) c

-- `RequestMetadata`
unfoldable pub request_metadata : ℤ → Client → Result ExtensionError (Bytes × Client)
unfolding request_metadata_piece assemble
request_metadata ext_id c = request_metadata_piece ext_id 0 c >>= λ ((first_piece, total_size), d).
    assemble ext_id first_piece total_size d

-- `FetchMetadata` of peer/client.go
unfoldable pub fetch_metadata : Client → Result ExtensionError (Bytes × Client)
unfolding request_metadata
fetch_metadata c = request_metadata c.metadata_ext_id c
