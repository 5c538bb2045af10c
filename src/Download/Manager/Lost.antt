-- ===== src/Download/Manager/Lost.antt =====
-- What becomes of a piece whose hash does not match.
use bittorrent_client_go.Base.{
  ℕ, zero, suc, ◌+◌, ◌*◌, ◌≤◌, ◌≡◌, ◌≢◌, refl, sym, ap, ◌∙◌, true, false, Bool-cases, inl, inr, ◌⊎◌,
  none, some, List, [], ◌∷◌, Bytes, bytes_eq, eq_of_bytes_eq, ltb, ◌==◌, length, get_elem?,
  replicate, lookup_at, lookup_at-delete_at, arith,
}
use bittorrent_client_go.Download.Picker.{
  completed, state_eq, Block, Piece, PiecePicker, blocks_in, block_size,
}
use bittorrent_client_go.Download.Picker.Takes.{state_eq→eq}
use bittorrent_client_go.Download.Picker.Settle.{
  Progress, all_completed, state_at, fail_block, mark_failed,
}
use bittorrent_client_go.Download.Manager.{
  BlockBuffer, TorrentManager, length_of, fail_blocks, revert_piece, Gathered, after_block,
  gather_blocks, hash_of, verify_piece, verify_and_write_piece,
}

state_at-completed :
    (begin : ℕ) (bs : List Block)
    → all_completed bs ≡ true
    → (state_at begin bs ≡ none) ⊎ (state_at begin bs ≡ some completed)
unfolding state_at all_completed
state_at-completed begin [] all = inl refl
state_at-completed begin (b ∷ bs) all = elim (Bool-cases (b.begin == begin)) [
  | inl e ↦
      let s : state_eq b.state completed ≡ true = ground arith in
      rw e (inr (ap some (state_eq→eq b.state completed s)))
  | inr e ↦ rw e (state_at-completed begin bs (ground arith))
]

mark_failed-completed :
    (p : PiecePicker) (i begin : ℕ) (piece : Piece)
    → get_elem? p.pieces i ≡ some piece
    → all_completed piece.blocks ≡ true
    → mark_failed p i begin ≡ p
unfolding mark_failed fail_block
mark_failed-completed p i begin piece found all = elim (state_at-completed begin piece.blocks all) [
  | inl e ↦ rw (found, e, mark_failed) refl
  | inr e ↦ rw (found, e, mark_failed) refl
]

fail_blocks-completed :
    (r b i : ℕ) (p : PiecePicker) (piece : Piece)
    → get_elem? p.pieces i ≡ some piece
    → all_completed piece.blocks ≡ true
    → fail_blocks r b i p ≡ p
unfolding fail_blocks
fail_blocks-completed zero b i p piece found all = refl
fail_blocks-completed (suc r) b i p piece found all =
    ap (fail_blocks r (b + 1) i) (mark_failed-completed p i (b * block_size) piece found all)
    ∙ fail_blocks-completed r (b + 1) i p piece found all

-- What `verifyAndWritePiece` gathers of these blocks
abbrev pub gathered : TorrentManager → ℕ → List (ℕ × BlockBuffer) → Gathered
gathered tm index blocks =
    gather_blocks (blocks_in (length_of tm index)) 0 blocks (replicate (length_of tm index) 0)
      tm.freed

module _ (sha1 : Bytes → Bytes) where
  -- `verifyAndWritePiece` alone
  verify_and_write_piece_mismatch :
      (index : ℕ) (tm : TorrentManager) (blocks : List (ℕ × BlockBuffer)) (piece : Piece)
      → lookup_at index tm.piece_bufs ≡ some blocks
      → get_elem? tm.picker.pieces index ≡ some piece
      → all_completed piece.blocks ≡ true
      → (index + 1) * 20 ≤ length tm.pieces
      → (gathered tm index blocks).is_whole ≡ true
      → sha1 (gathered tm index blocks).bytes ≢ hash_of tm.pieces index
      → (next : TorrentManager) × (verify_and_write_piece sha1 index tm ≡ some next)
        × (next.writes ≡ tm.writes)
        × (lookup_at index next.piece_bufs ≡ none)
        × (next.picker ≡ tm.picker)
        × (next.is_done ≡ tm.is_done)
  unfolding verify_and_write_piece verify_piece
  verify_and_write_piece_mismatch index tm blocks piece held found all enough whole other =
      let n = length_of tm index in
      let g = gather_blocks (blocks_in n) 0 blocks (replicate n 0) tm.freed in
      let given : TorrentManager = record tm { freed = g.freed } in
      let long : ltb (length tm.pieces) ((index + 1) * 20) ≡ false = ground arith in
      let differs : bytes_eq (sha1 g.bytes) (hash_of tm.pieces index) ≡ false =
        elim (Bool-cases (bytes_eq (sha1 g.bytes) (hash_of tm.pieces index))) [
          | inl e ↦ absurd (other (eq_of_bytes_eq (sha1 g.bytes) (hash_of tm.pieces index) e))
          | inr e ↦ e
        ] in
      let same = fail_blocks-completed (blocks_in n) 0 index tm.picker piece found all in
      (
        revert_piece index given,
        rw (held, whole, long, differs, verify_and_write_piece) (rw (held, revert_piece) refl),
        refl,
        ground (arith, lookup_at-delete_at index index tm.piece_bufs),
        same,
        refl,
      )

  -- If the block that has come completes a piece, the blocks of the piece are all completed in the picker
  -- and all in the buffers, and the bytes that they make have another hash than the torrent's: then
  -- nothing is written and the blocks are dropped, the picker is as before, so that each of the blocks
  -- stays completed, and the download is done all the same if the block was the last one.
  pub after_block_mismatch :
      (progress : Progress) (index : ℕ) (tm : TorrentManager) (blocks : List (ℕ × BlockBuffer))
      (piece : Piece)
      → progress.piece_done ≡ true
      → tm.is_done ≡ false
      → lookup_at index tm.piece_bufs ≡ some blocks
      → get_elem? tm.picker.pieces index ≡ some piece
      → all_completed piece.blocks ≡ true
      → (index + 1) * 20 ≤ length tm.pieces
      → (gathered tm index blocks).is_whole ≡ true
      → sha1 (gathered tm index blocks).bytes ≢ hash_of tm.pieces index
      → (next : TorrentManager) × (after_block sha1 (some progress) index tm ≡ some next)
        × (next.writes ≡ tm.writes)
        × (lookup_at index next.piece_bufs ≡ none)
        × (next.picker ≡ tm.picker)
        × (next.is_done ≡ progress.all_done)
  unfolding after_block
  after_block_mismatch progress index tm blocks piece ends going held found all enough whole other =
      let (next, result, writes, gone, picker, done) =
        verify_and_write_piece_mismatch index tm blocks piece held found all enough whole other in
      let still : next.is_done ≡ false = done ∙ going in
      elim (Bool-cases progress.all_done) [
        | inl last ↦ (
          record next { is_done = true },
          rw (ends, result, last, still, after_block) refl,
          writes,
          gone,
          picker,
          sym last,
        )
        | inr more ↦ (
          next,
          rw (ends, result, more, after_block) refl,
          writes,
          gone,
          picker,
          still ∙ sym more,
        )
      ]
