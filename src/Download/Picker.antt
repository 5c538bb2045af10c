-- ===== src/Download/Picker.antt =====
-- download/picker.go: the piece picker. Each method takes the picker and returns the new one; the
-- lock that each holds makes it one step. Times are numbers, and `now` is an argument. Piece indices
-- and offsets are naturals, since every caller converts them from `uint32` or counts up from zero.
pub mod Choose
pub mod Settle
pub mod Count
pub mod Takes
pub mod Counted
pub mod Pieces
pub mod Tiles
pub mod Fresh
pub mod History
pub mod Done
pub mod OpenBlocks
pub mod EndGame
mod Tests
use Prim.Native.Nat.{bit_and}
use bittorrent_client_go.Base.{
  int_bound, ◌||◌, ℕ, zero, suc, ◌+◌, ◌-◌, ◌*◌, ◌/◌, ◌%◌, ◌^◌, Bool, true, false, not, ◌&&◌, Option,
  none, some, List, [], ◌∷◌, ◌++◌, Bytes, bytes_eq, ltb, leb, ◌==◌, if◌then◌else◌, length,
  get_elem?, get_or, set, replicate, lookup, insert, delete,
}
use bittorrent_client_go.Base.Sorter.{Sorter}

pub data BlockState : Type 0 where
  unrequested pending completed : BlockState

pub record Block : Type 0 where
  pub index : ℕ
  pub begin : ℕ
  pub len : ℕ
  pub state : BlockState
  pub peer : Bytes
  pub sent : ℕ

-- `pieceState`
pub record Piece : Type 0 where
  pub index : ℕ
  pub len : ℕ
  pub blocks : List Block
  pub is_done : Bool

pub record PiecePicker : Type 0 where
  pub pieces : List Piece
  pub peer_pieces : List (Bytes × List Bool)
  pub availability : List ℕ
  pub total_blocks : ℕ
  pub pending_count : ℕ
  pub completed_count : ℕ
  pub end_game : Bool

abbrev pub state_eq : BlockState → BlockState → Bool
state_eq unrequested unrequested = true
state_eq pending pending = true
state_eq completed completed = true
state_eq _ _ = false

abbrev pub block_size : ℕ
block_size = 16384

-- `NewPiecePicker`: the body of the loop over the blocks of a piece
unfoldable pub new_block : ℕ → ℕ → ℕ → Block
new_block i piece_len b =
    let begin = b * block_size in
    record {
      index = i;
      begin = begin;
      len = if ltb piece_len (begin + block_size) then piece_len - begin else block_size;
      state = unrequested;
      peer = [];
      sent = 0;
    }

-- The first argument counts the rounds left.
unfoldable pub new_blocks : ℕ → ℕ → ℕ → ℕ → List Block
unfolding new_block
new_blocks zero i piece_len b = []
new_blocks (suc n) i piece_len b = new_block i piece_len b ∷ new_blocks n i piece_len (b + 1)

-- The sum does not wrap: where a piece is made, it has at most 2^62 bytes.
abbrev pub blocks_in : ℕ → ℕ
blocks_in piece_len = (piece_len + block_size - 1) / block_size

-- `(totalLength + normalPieceLength - 1) / normalPieceLength` of two positive `int`: the sum may wrap at
-- 64 bits, and the count is then negative or zero. Zero stands for a negative count too.
unfoldable pub piece_count : ℕ → ℕ → ℕ
piece_count total normal =
    let sum = total + normal - 1 in if leb int_bound sum then 0 else sum / normal

-- The count is negative: the sum wraps, and what it wraps to is not less than the divisor.
unfoldable pub is_negative_count : ℕ → ℕ → Bool
is_negative_count total normal =
    let sum = total + normal - 1 in leb int_bound sum && leb normal (2 ^ 64 - sum)

unfoldable pub piece_length : ℕ → ℕ → ℕ → ℕ → ℕ
piece_length total normal count i = if i + 1 == count then total - i * normal else normal

unfoldable pub new_piece : ℕ → ℕ → ℕ → ℕ → Piece
unfolding new_blocks piece_length
new_piece total normal count i =
    let n = piece_length total normal count i in
    record { index = i; len = n; blocks = new_blocks (blocks_in n) i n 0; is_done = false }

unfoldable pub new_pieces : ℕ → ℕ → ℕ → ℕ → ℕ → List Piece
unfolding new_piece
new_pieces zero total normal count i = []
new_pieces (suc r) total normal count i =
    new_piece total normal count i ∷ new_pieces r total normal count (i + 1)

-- `totalBlocks++` for each block that is made
unfoldable pub count_blocks : List Piece → ℕ
count_blocks [] = 0
count_blocks (p ∷ ps) = length p.blocks + count_blocks ps

-- `NewPiecePicker`; `none` is the panic of the division by a piece length of zero, or that of `make`
-- where the count of pieces is negative.
unfoldable pub new_picker : ℕ → ℕ → Option PiecePicker
unfolding new_pieces count_blocks piece_count is_negative_count
new_picker total normal =
    let count = piece_count total normal in
    let pieces = new_pieces count total normal count 0 in
    if normal == 0 || is_negative_count total normal
    then none
    else some (record {
      pieces = pieces;
      peer_pieces = [];
      availability = replicate count 0;
      total_blocks = count_blocks pieces;
      pending_count = 0;
      completed_count = 0;
      end_game = false;
    })

-- `RegisterPeer`
unfoldable pub register_peer : PiecePicker → Bytes → PiecePicker
register_peer p addr = record p {
  peer_pieces = insert addr (replicate (length p.pieces) false) p.peer_pieces;
}

-- `availability[i]--` for each piece that the bitmap has
unfoldable pub withdraw : List Bool → List ℕ → List ℕ
withdraw (has ∷ bits) (a ∷ avail) = (if has then a - 1 else a) ∷ withdraw bits avail
withdraw _ avail = avail

-- The state of the loops that put blocks back: `pendingCount`, and the blocks put back so far.
pub record Reclaimed (A : Type 0) : Type 0 where
  pub items : List A
  pub count : ℕ
  pub stalled : List Block

abbrev pub put_back : Block → Block
put_back b = record b { state = unrequested; peer = [] }

-- The loop over the blocks of a piece in `UnregisterPeer` and `GetStalledRequests`.
unfoldable pub reclaim : (Block → Bool) → List Block → ℕ → List Block → Reclaimed Block
reclaim test [] n out = record { items = []; count = n; stalled = out }
reclaim test (b ∷ bs) n out =
    let hit = test b in
    let rest = reclaim test bs (if hit then n - 1 else n) (if hit then out ++ (b ∷ []) else out) in
    record rest { items = (if hit then put_back b else b) ∷ rest.items }

-- The loop over the pieces there; a completed piece is skipped.
unfoldable pub reclaim_pieces : (Block → Bool) → List Piece → ℕ → List Block → Reclaimed Piece
unfolding reclaim
reclaim_pieces test [] n out = record { items = []; count = n; stalled = out }
reclaim_pieces test (p ∷ ps) n out =
    let here =
      if p.is_done
      then record { items = p.blocks; count = n; stalled = out }
      else reclaim test p.blocks n out in
    let rest = reclaim_pieces test ps here.count here.stalled in
    record rest { items = record p { blocks = here.items } ∷ rest.items }

abbrev pub requested_from : Bytes → Block → Bool
requested_from addr b = state_eq b.state pending && bytes_eq b.peer addr

-- `UnregisterPeer`
unfoldable pub unregister_peer : PiecePicker → Bytes → PiecePicker
unfolding withdraw reclaim_pieces
unregister_peer p addr =
    let r = reclaim_pieces (requested_from addr) p.pieces p.pending_count [] in
    record p {
      pieces = r.items;
      peer_pieces = delete addr p.peer_pieces;
      availability = elim (lookup addr p.peer_pieces) [
        | none ↦ p.availability
        | some bits ↦ withdraw bits p.availability
      ];
      pending_count = r.count;
    }
