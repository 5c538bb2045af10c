-- ===== src/Peer/Client/Pieces.antt =====
-- A piece that is downloaded from a peer that answers each request, in any order.
use bittorrent_client_go.Base.{
  ℕ, zero, suc, ◌+◌, ◌-◌, ◌*◌, ◌/◌, ◌≤◌, ◌<◌, ◌≡◌, refl, ap, ◌∙◌, sym, min, Bool, true, false, ◌&&◌,
  ◌||◌, Bool-cases, inl, inr, none, some, List, [], ◌∷◌, ◌++◌, map, Bytes, ltb, leb, ◌==◌,
  if◌then◌else◌, length, take, drop, length-take, length-drop, length-replicate, replicate, All,
  get_elem?, copy_at, length-copy_at, get_elem?-copy_at, get_elem?-take, get_elem?-drop,
  eq_of_elems, ok, put_u32, u32_mod, u32_of-put_u32, arith,
}
use bittorrent_client_go.Peer.Client.{
  Incoming, message, Client, block_size, blocks_of, block_requests, put_block, receive_blocks,
  download_piece,
}

-- What a peer sends: keepalives, other messages, and blocks of the piece.
pub data Delivery : Type 0 where
  keepalive : Delivery
  other : ℕ → Bytes → Delivery
  block : ℕ → Delivery

-- The bytes of block `b` of a piece
abbrev pub block_of : Bytes → ℕ → Bytes
block_of piece b = take block_size (drop (b * block_size) piece)

abbrev pub delivered : Bytes → ℕ → Delivery → Incoming
delivered piece index keepalive = message 0 none
delivered piece index (other id payload) = message id (some payload)
delivered piece index (block b) =
    message 7 (some (put_u32 index ++ (put_u32 (b * block_size) ++ block_of piece b)))

unfoldable pub blocks_among : List Delivery → List ℕ
blocks_among [] = []
blocks_among (keepalive ∷ ds) = blocks_among ds
blocks_among (other id payload ∷ ds) = blocks_among ds
blocks_among (block b ∷ ds) = b ∷ blocks_among ds

-- The other messages are no pieces, and the blocks are of the piece.
abbrev pub IsAnswer : Bytes → Delivery → Type 0
IsAnswer piece keepalive = Unit
IsAnswer piece (other id payload) = (id == 7) ≡ false
IsAnswer piece (block b) = b < blocks_of (length piece)

unfoldable pub has : ℕ → List ℕ → Bool
has b [] = false
has b (c ∷ cs) = c == b || has b cs

-- A buffer of the piece's length that has the blocks of two lists right
abbrev pub Agrees : Bytes → List ℕ → List ℕ → Bytes → Type 0
Agrees piece bs cs buffer =
    (length buffer ≡ length piece)
    × ((i : ℕ)
        → i < length piece
        → (has (i / block_size) bs || has (i / block_size) cs) ≡ true
        → get_elem? buffer i ≡ get_elem? piece i)

put_block-block :
    (piece : Bytes) (index b : ℕ) (buffer : Bytes)
    → length buffer ≡ length piece
    → length piece < u32_mod
    → b < blocks_of (length piece)
    → put_block (put_u32 index ++ (put_u32 (b * block_size) ++ block_of piece b)) buffer
      ≡ ok (copy_at (b * block_size) buffer (block_of piece b))
unfolding put_block
put_block-block piece index b buffer e small h =
    let begin = u32_of-put_u32 (b * block_size) (omega arith) in
    let within : ltb (length buffer) (b * block_size) ≡ false = ground arith in
    rw (begin, within) refl

inside_range :
    (begin len i : ℕ)
    → (leb begin i && ltb i (begin + len)) ≡ true
    → (begin ≤ i) × (i < begin + len)
inside_range begin len i h = ground arith

outside_block :
    (b i n len : ℕ)
    → len ≡ min block_size (n - b * block_size)
    → i < n
    → (leb (b * block_size) i && ltb i (b * block_size + len)) ≡ false
    → (b == i / block_size) ≡ false
outside_block b i n len e h out = ground arith

-- The block that is copied in is right, and the others are as before.
pub copied :
    (piece : Bytes) (b : ℕ) (bs cs : List ℕ) (buffer : Bytes)
    → Agrees piece bs cs buffer
    → Agrees piece bs (b ∷ cs) (copy_at (b * block_size) buffer (block_of piece b))
unfolding has
copied piece b bs cs buffer (size, right) = (
  length-copy_at (b * block_size) buffer (block_of piece b) ∙ size,
  λ i less known.
      at_index i less known
        (get_elem?-copy_at (b * block_size) buffer (block_of piece b) i (omega (arith, size))),
)
  where
    at_index :
        (i : ℕ)
        → i < length piece
        → (has (i / block_size) bs || (b == i / block_size || has (i / block_size) cs)) ≡ true
        → get_elem? (copy_at (b * block_size) buffer (block_of piece b)) i ≡ (
            if leb (b * block_size) i && ltb i (b * block_size + length (block_of piece b))
            then get_elem? (block_of piece b) (i - b * block_size)
            else get_elem? buffer i)
        → get_elem? (copy_at (b * block_size) buffer (block_of piece b)) i ≡ get_elem? piece i
    at_index i less known e =
        let begin = b * block_size in
        let size_of : length (block_of piece b) ≡ min block_size (length piece - begin) =
          omega (arith, length-take block_size (drop begin piece), length-drop begin piece) in
        elim (Bool-cases (leb begin i && ltb i (begin + length (block_of piece b)))) [
          | inl inside ↦
              let (above, below) = inside_range begin (length (block_of piece b)) i inside in
              let offset : begin + (i - begin) ≡ i = omega (arith, above) in
              let chosen = rw inside at e in
              chosen
              ∙ get_elem?-take block_size (drop begin piece) (i - begin)
                  (omega (arith, above, below, size_of))
              ∙ get_elem?-drop begin piece (i - begin)
              ∙ ap (get_elem? piece) offset
          | inr outside ↦
              let elsewhere =
                outside_block b i (length piece) (length (block_of piece b)) size_of less outside in
              let before = rw elsewhere at known in
              let kept = rw outside at e in kept ∙ right i less before
        ]

no_blocks : (ds : List Delivery) → 0 ≡ length (blocks_among ds) → blocks_among ds ≡ []
no_blocks ds e = nothing (blocks_among ds) e
  where
    nothing : (bs : List ℕ) → 0 ≡ length bs → bs ≡ []
    nothing [] h = refl
    nothing (b ∷ bs) h = absurd (omega (arith, h))

-- A block of the second list that has been received counts among the first.
moved :
    (piece : Bytes) (b : ℕ) (bs cs : List ℕ) (buffer : Bytes)
    → Agrees piece bs (b ∷ cs) buffer
    → Agrees piece (b ∷ bs) cs buffer
unfolding has
moved piece b bs cs buffer (size, right) = (
  size,
  λ i less known.
      right i less
        (swap (b == i / block_size) (has (i / block_size) bs) (has (i / block_size) cs) known),
)
  where
    swap : (p q r : Bool) → ((p || q) || r) ≡ true → (q || (p || r)) ≡ true
    swap true true r h = refl
    swap true false r h = refl
    swap false q r h = h

-- The loop reads until it has as many blocks as it waits for.
receive_blocks-delivered :
    (piece : Bytes) (index : ℕ) (ds : List Delivery) (n : ℕ) (cs : List ℕ) (buffer : Bytes)
    → length piece < u32_mod
    → All (IsAnswer piece) ds
    → n ≡ length (blocks_among ds)
    → Agrees piece [] cs buffer
    → (final : Bytes) × (left : List Incoming) × (receive_blocks
          (map (delivered piece index) ds)
          n
          buffer
        ≡ ok (final, left))
      × Agrees piece (blocks_among ds) cs final
unfolding receive_blocks blocks_among
receive_blocks-delivered piece index [] zero cs buffer small h e a = (buffer, [], refl, a)
receive_blocks-delivered piece index [] (suc n) cs buffer small h e a = absurd (omega (arith, e))
receive_blocks-delivered piece index (keepalive ∷ ds) (suc n) cs buffer small h e a =
    receive_blocks-delivered piece index ds (suc n) cs buffer small h.1 e a
receive_blocks-delivered piece index (other id payload ∷ ds) (suc n) cs buffer small h e a =
    rw h.0 (receive_blocks-delivered piece index ds (suc n) cs buffer small h.1 e a)
receive_blocks-delivered piece index (block b ∷ ds) (suc n) cs buffer small h e a =
    let next = copy_at (b * block_size) buffer (block_of piece b) in
    let stored = put_block-block piece index b buffer a.0 small h.0 in
    let (final, left, reads, right) =
      receive_blocks-delivered piece index ds n (b ∷ cs) next small h.1 (omega (arith, e))
        (copied piece b [] cs buffer a) in
    (final, left, rw stored reads, moved piece b (blocks_among ds) cs final right)
receive_blocks-delivered piece index (d ∷ ds) zero cs buffer small h e a =
    let none_left = no_blocks (d ∷ ds) e in
    (buffer, map (delivered piece index) (d ∷ ds), refl, rw none_left a)

pub zeros-Agrees : (piece : Bytes) → Agrees piece [] [] (replicate (length piece) 0)
unfolding has
zeros-Agrees piece = (length-replicate (length piece) 0, λ i less known. absurd (no known))
  where
    no : false ≡ true → ⊥
    no e = cc

-- If a peer sends each block of a piece of less than 4 GiB once, in any order, among keepalives and
-- messages of other kinds, then `DownloadPiece` returns the piece.
pub download_piece-any_order :
    (piece : Bytes) (index : ℕ) (ds : List Delivery) (c : Client)
    → length piece < u32_mod
    → c.incoming ≡ map (delivered piece index) ds
    → All (IsAnswer piece) ds
    → length (blocks_among ds) ≡ blocks_of (length piece)
    → ((b : ℕ) → b < blocks_of (length piece) → has b (blocks_among ds) ≡ true)
    → (d : Client) × (download_piece index (length piece) c ≡ ok (piece, d))
unfolding download_piece
download_piece-any_order piece index ds c small stream answers count every =
    let zeros : Bytes = replicate (length piece) 0 in
    let (final, left, reads, right) =
      receive_blocks-delivered piece index ds (blocks_of (length piece)) [] zeros small answers
        (sym count) (zeros-Agrees piece) in
    let same : final ≡ piece = eq_of_elems final piece right.0 (λ i less.
      right.1 i (omega (arith, less, right.0)) (ground (arith, every (i / block_size)))) in
    (
      record c {
        incoming = left;
        sent = c.sent ++ block_requests (blocks_of (length piece)) 0 index (length piece);
      },
      rw stream (rw reads (rw same refl)),
    )
