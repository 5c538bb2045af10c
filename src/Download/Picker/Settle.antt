-- ===== src/Download/Picker/Settle.antt =====
-- download/picker.go: what becomes of a requested block (`MarkCompleted`, `MarkFailed`,
-- `GetStalledRequests`, `IsCompleted`).
use bittorrent_client_go.Base.{
  ℕ, ◌+◌, ◌-◌, Bool, true, false, ◌&&◌, Option, none, some, List, [], ◌∷◌, Bytes, ltb, ◌==◌,
  if◌then◌else◌, get_elem?, set,
}
use bittorrent_client_go.Download.Picker.{
  BlockState, pending, completed, Block, Piece, PiecePicker, state_eq, put_back, reclaim_pieces,
}

-- The state of the first block at this offset.
unfoldable pub state_at : ℕ → List Block → Option BlockState
state_at begin [] = none
state_at begin (b ∷ bs) = if b.begin == begin then some b.state else state_at begin bs

-- A change of the first block at this offset.
unfoldable pub change_at : ℕ → (Block → Block) → List Block → List Block
change_at begin f [] = []
change_at begin f (b ∷ bs) = if b.begin == begin then f b ∷ bs else b ∷ change_at begin f bs

unfoldable pub all_completed : List Block → Bool
all_completed [] = true
all_completed (b ∷ bs) = state_eq b.state completed && all_completed bs

-- The result of `MarkCompleted` where it is not `-1, false, false`.
pub record Progress : Type 0 where
  pub index : ℕ
  pub piece_done : Bool
  pub all_done : Bool

abbrev pub completed_by : Bytes → Block → Block
completed_by addr b = record b { state = completed; peer = addr }

-- The end of `MarkCompleted`, for a block that was in this state.
unfoldable pub complete :
    PiecePicker → ℕ → Piece → ℕ → Bytes → BlockState → PiecePicker × Option Progress
unfolding change_at all_completed
complete p i piece begin addr completed = (p, none)
complete p i piece begin addr state =
    let blocks = change_at begin (completed_by addr) piece.blocks in
    let done = all_completed blocks in
    let count = p.completed_count + 1 in
    let q : PiecePicker = record p {
      pieces = set p.pieces i (record piece { blocks = blocks; is_done = done });
      pending_count = if state_eq state pending then p.pending_count - 1 else p.pending_count;
      completed_count = count;
    } in
    (q, some (record { index = i; piece_done = done; all_done = count == p.total_blocks }))

-- `MarkCompleted` behind the bounds check, by `piece.Completed` and the state of the block found.
unfoldable pub settle :
    PiecePicker → ℕ → Piece → ℕ → Bytes → Bool → Option BlockState → PiecePicker × Option Progress
unfolding complete
settle p i piece begin addr true found = (p, none)
settle p i piece begin addr false none = (p, none)
settle p i piece begin addr false (some state) = complete p i piece begin addr state

-- `MarkCompleted`; `none` stands for `-1, false, false`.
unfoldable pub mark_completed : PiecePicker → ℕ → ℕ → Bytes → PiecePicker × Option Progress
unfolding settle state_at
mark_completed p i begin addr = elim (get_elem? p.pieces i) [
  | none ↦ (p, none)
  | some piece ↦ settle p i piece begin addr piece.is_done (state_at begin piece.blocks)
]

-- `MarkFailed` behind the bounds check, by the state of the block found.
unfoldable pub fail_block : PiecePicker → ℕ → Piece → ℕ → Option BlockState → PiecePicker
unfolding change_at
fail_block p i piece begin (some pending) = record p {
  pieces = set p.pieces i (record piece { blocks = change_at begin put_back piece.blocks });
  pending_count = p.pending_count - 1;
}
fail_block p i piece begin _ = p

-- `MarkFailed`
unfoldable pub mark_failed : PiecePicker → ℕ → ℕ → PiecePicker
unfolding state_at fail_block
mark_failed p i begin = elim (get_elem? p.pieces i) [
  | none ↦ p
  | some piece ↦ fail_block p i piece begin (state_at begin piece.blocks)
]

-- `GetStalledRequests`; `now.Sub(block.Sent)` is not positive where the block was sent later.
unfoldable pub get_stalled_requests : PiecePicker → ℕ → ℕ → PiecePicker × List Block
get_stalled_requests p now timeout =
    let test = λ (b : Block). state_eq b.state pending && ltb timeout (now - b.sent) in
    let r = reclaim_pieces test p.pieces p.pending_count [] in
    (record p { pieces = r.items; pending_count = r.count }, r.stalled)

-- `IsCompleted`
unfoldable pub is_completed : PiecePicker → Bool
is_completed p = p.completed_count == p.total_blocks
