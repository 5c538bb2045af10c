-- ===== src/Peer/Client/Extension/Metadata.antt =====
-- The metadata that is put together of a peer's answers.
use bittorrent_client_go.Base.{
  ℕ, zero, suc, ◌+◌, ◌-◌, ◌*◌, ◌/◌, ◌≤◌, ◌<◌, ◌≡◌, refl, ◌∙◌, sym, min, ℤ, pos, int_bound, true,
  false, ◌||◌, Bool-cases, inl, inr, some, List, [], ◌∷◌, ◌++◌, Bytes, bytes_eq, bytes_gt, codes,
  ltb, leb, leb→le, ◌==◌, length, take, drop, length-take, length-drop, take_all, take-min,
  replicate, copy_at, eq_of_elems, ok, arith,
}
use bittorrent_client_go.Bencode.{int, dict, Fields, end, field, get}
use bittorrent_client_go.Dht.Krpc.{encode}
use bittorrent_client_go.Dht.Krpc.Body.{IsCanonical}
use bittorrent_client_go.Dht.Krpc.RoundTrip.{decode_dict-encode}
use bittorrent_client_go.Peer.Message.{write_message}
use bittorrent_client_go.Peer.Client.{Incoming, message, Client, block_size, blocks_of}
use bittorrent_client_go.Peer.Client.Pieces.{block_of, has, Agrees, copied, zeros-Agrees}
use bittorrent_client_go.Peer.Client.Extension.{
  read_metadata, find_metadata, metadata_request, request_metadata_piece, request_pieces, assemble,
  request_metadata,
}

-- The dictionary before a piece: {"msg_type": 1, "piece": piece, "total_size": total_size}
abbrev pub piece_dict : ℕ → ℕ → Fields
piece_dict piece total_size = field (codes "msg_type") (int (pos 1)) (
    field (codes "piece") (int (pos piece)) (field (codes "total_size") (int (pos total_size)) end))

-- The answer with a piece of the metadata, behind the extension ID
abbrev pub answer_body : Bytes → ℕ → Bytes
answer_body metadata p = encode (dict (piece_dict p (length metadata))) ++ block_of metadata p

-- The answers with the `r` pieces from `p` on
unfoldable pub answers : ℕ → ℕ → ℕ → Bytes → List Incoming
answers zero p ext metadata = []
answers (suc r) p ext metadata =
    message 20 (some (ext ∷ answer_body metadata p)) ∷ answers r (p + 1) ext metadata

read_metadata-answer :
    (metadata : Bytes) (ext p : ℕ)
    → p < int_bound
    → length metadata < int_bound
    → length (answer_body metadata p) < int_bound
    → read_metadata (ext ∷ answer_body metadata p) ≡ ok (block_of metadata p, pos (length metadata))
unfolding read_metadata IsCanonical bytes_gt bytes_eq get
read_metadata-answer metadata ext p hp hn short =
    rw
      (decode_dict-encode (length (answer_body metadata p)) (piece_dict p (length metadata))
        (block_of metadata p) ((refl, (refl, tt)), omega arith, ((refl, tt), hp, (tt, hn, tt)))
        (omega arith) short)
      refl

-- The client after a request for piece `p`, with these messages left.
abbrev asked : ℤ → ℕ → Client → List Incoming → Client
asked ext_id p c stream = record c {
  incoming = stream;
  sent = c.sent ++ write_message 20 (metadata_request ext_id p);
}

request_metadata_piece-answer :
    (metadata : Bytes) (ext p : ℕ) (ext_id : ℤ) (c : Client) (stream : List Incoming)
    → p < int_bound
    → length metadata < int_bound
    → length (answer_body metadata p) < int_bound
    → c.incoming ≡ message 20 (some (ext ∷ answer_body metadata p)) ∷ stream
    → request_metadata_piece ext_id p c
      ≡ ok ((block_of metadata p, pos (length metadata)), asked ext_id p c stream)
unfolding request_metadata_piece find_metadata
request_metadata_piece-answer metadata ext p ext_id c stream hp hn short e =
    rw (e, read_metadata-answer metadata ext p hp hn short) refl

request_pieces-answers :
    (metadata : Bytes) (ext : ℕ) (ext_id : ℤ) (r p : ℕ) (cs : List ℕ) (buffer : Bytes) (c : Client)
    → p + r ≡ blocks_of (length metadata)
    → length metadata < int_bound
    → ((q : ℕ) → q < blocks_of (length metadata) → length (answer_body metadata q) < int_bound)
    → c.incoming ≡ answers r p ext metadata
    → Agrees metadata [] cs buffer
    → ((b : ℕ) → b < p → has b cs ≡ true)
    → (d : Client) × (request_pieces r p ext_id (length metadata) buffer c ≡ ok (metadata, d))
unfolding request_pieces answers has
request_pieces-answers metadata ext ext_id zero p cs buffer c e hn short s a every =
    let whole : buffer ≡ metadata = eq_of_elems buffer metadata a.0 (λ i less.
      a.1 i (omega (arith, less, a.0)) (every (i / block_size) (omega (arith, e, less, a.0)))) in
    (c, rw whole refl)
request_pieces-answers metadata ext ext_id (suc r) p cs buffer c e hn short s a every =
    let n = length metadata in
    let piece = block_of metadata p in
    let size_of : length piece ≡ min block_size (n - p * block_size) = omega (
      arith,
      length-take block_size (drop (p * block_size) metadata),
      length-drop (p * block_size) metadata,
    ) in
    let uncut : ltb n (p * block_size + length piece) ≡ false =
      no_cut n p (length piece) size_of (omega (arith, e)) in
    let read =
      request_metadata_piece-answer metadata ext p ext_id c (answers r (p + 1) ext metadata)
        (omega (arith, e, hn)) hn (short p (omega (arith, e))) s in
    let (d, done) =
      request_pieces-answers metadata ext ext_id r (p + 1) (p ∷ cs)
        (copy_at (p * block_size) buffer piece) (asked ext_id p c (answers r (p + 1) ext metadata))
        (omega (arith, e)) hn short refl (copied metadata p [] cs buffer a)
        (λ b less. known b (every b) less) in
    (d, rw read (rw uncut done))
  where
    no_cut :
        (n p k : ℕ)
        → k ≡ min block_size (n - p * block_size)
        → p < blocks_of n
        → ltb n (p * block_size + k) ≡ false
    no_cut n p k e h = ground arith

    known : (b : ℕ) → (b < p → has b cs ≡ true) → b < p + 1 → (p == b || has b cs) ≡ true
    known b before less = ground arith

-- If a peer answers the requests for the pieces of a metadata that is not empty, each with the
-- metadata's length and the piece, then `RequestMetadata` returns the metadata, if the answers and
-- the metadata are shorter than 2^63 bytes.
pub request_metadata-answers :
    (metadata : Bytes) (ext : ℕ) (ext_id : ℤ) (c : Client)
    → 0 < length metadata
    → length metadata < int_bound
    → ((q : ℕ) → q < blocks_of (length metadata) → length (answer_body metadata q) < int_bound)
    → c.incoming ≡ answers (blocks_of (length metadata)) 0 ext metadata
    → (d : Client) × (request_metadata ext_id c ≡ ok (metadata, d))
unfolding request_metadata assemble answers has
request_metadata-answers metadata ext ext_id c some_bytes hn short s =
    let n = length metadata in
    let first = block_of metadata 0 in
    let more : blocks_of n ≡ suc (blocks_of n - 1) = omega arith in
    let stream : c.incoming
        ≡ message 20 (some (ext ∷ answer_body metadata 0))
          ∷ answers (blocks_of n - 1) 1 ext metadata =
      rw more at s in
    let read =
      request_metadata_piece-answer metadata ext 0 ext_id c
        (answers (blocks_of n - 1) 1 ext metadata) (omega arith) hn (short 0 (omega arith))
        stream in
    let size_of : length first ≡ min block_size n =
      omega (arith, length-take block_size metadata) in
    let positive : (n == 0) ≡ false = ground arith in
    elim (Bool-cases (leb n (length first))) [
      | inl one ↦
          let all : n ≤ length first = leb→le n (length first) one in
          let whole : take n first ≡ metadata =
            take_all n first (omega (arith, all, size_of))
            ∙ sym (take-min block_size metadata)
            ∙ take_all (min block_size n) metadata (omega (arith, all, size_of)) in
          (
            asked ext_id 0 c (answers (blocks_of n - 1) 1 ext metadata),
            rw read (rw (positive, one, whole) refl),
          )
      | inr several ↦
          let (d, done) =
            request_pieces-answers metadata ext ext_id (blocks_of n - 1) 1 (0 ∷ [])
              (copy_at 0 (replicate n 0) first)
              (asked ext_id 0 c (answers (blocks_of n - 1) 1 ext metadata)) (omega arith) hn short
              refl (copied metadata 0 [] [] (replicate n 0) (zeros-Agrees metadata)) only_first in
          (d, rw read (rw (positive, several) done))
    ]
  where
    only_first : (b : ℕ) → b < 1 → has b (0 ∷ []) ≡ true
    only_first zero h = refl
    only_first (suc b) h = absurd (omega (arith, h))
