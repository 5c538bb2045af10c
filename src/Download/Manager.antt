-- ===== src/Download/Manager.antt =====
-- download/manager.go: the event loop over the piece picker and the peers. Each event is one step, and
-- `none` is a panic. The piece length and the total length are positive or zero. `writes` is what the
-- storage was sent, `freed` the buffers given back to the pool, `dropped` the calls of
-- `OnPeerDisconnect`; a buffer of the pool is a number.
pub mod Verified
pub mod Lost
pub mod Run
pub mod Stored
mod Tests
use bittorrent_client_go.Base.{
  ℕ, zero, suc, ◌+◌, ◌-◌, ◌*◌, ◌/◌, Bool, true, false, not, Option, none, some, List, [], ◌∷◌, ◌++◌,
  map, Bytes, bytes_eq, ltb, leb, ◌==◌, if◌then◌else◌, length, take, drop, replicate, copy_at,
  lookup, insert, delete, lookup_at, insert_at, delete_at, u32_of,
}
use bittorrent_client_go.Base.Sorter.{Sorter}
use bittorrent_client_go.Download.Picker.{
  Block, PiecePicker, new_picker, register_peer, unregister_peer, piece_length, piece_count,
  blocks_in, block_size,
}
use bittorrent_client_go.Download.Picker.Choose.{next_block, update_peer_bitfield, update_peer_have}
use bittorrent_client_go.Download.Picker.Settle.{
  Progress, mark_completed, mark_failed, get_stalled_requests,
}
use bittorrent_client_go.Peer.Pipeline.{
  PeerMessage, Link, close, start_loop, queue_message, queue_request, get_outstanding_count,
}

pub record BlockBuffer : Type 0 where
  pub bytes : Bytes
  pub buffer : Option ℕ

pub record PieceWrite : Type 0 where
  pub index : ℕ
  pub bytes : Bytes

pub record TorrentManager : Type 0 where
  pub pieces : Bytes
  pub total_len : ℕ
  pub piece_len : ℕ
  pub picker : PiecePicker
  pub active_peers : List (Bytes × Link)
  pub piece_bufs : List (ℕ × List (ℕ × BlockBuffer))
  pub writes : List PieceWrite
  pub freed : List ℕ
  pub dropped : List Bytes
  pub is_done : Bool

-- `NewTorrentManager`
unfoldable pub new_torrent_manager : Bytes → ℕ → ℕ → Option TorrentManager
new_torrent_manager pieces total_len piece_len = elim (new_picker total_len piece_len) [
  | none ↦ none
  | some picker ↦ some (record {
    pieces = pieces;
    total_len = total_len;
    piece_len = piece_len;
    picker = picker;
    active_peers = [];
    piece_bufs = [];
    writes = [];
    freed = [];
    dropped = [];
    is_done = false;
  })
]

-- `AddPeer` of a client with these buffered messages, and what its loop sends the manager at once
unfoldable pub add_peer :
    ℕ → Bytes → List (ℕ × Bytes) → TorrentManager → TorrentManager × List PeerMessage
add_peer now addr buffered tm =
    let (client, out) = start_loop addr now buffered in
    (
      record tm {
        picker = register_peer tm.picker addr;
        active_peers = insert addr (queue_message 2 [] client) tm.active_peers;
      },
      out,
    )

-- `RemovePeer`; the client that is closed is not kept.
unfoldable pub remove_peer : Bytes → TorrentManager → TorrentManager
remove_peer addr tm = elim (lookup addr tm.active_peers) [
  | none ↦ tm
  | some client ↦ record tm {
    picker = unregister_peer tm.picker addr;
    active_peers = delete addr tm.active_peers;
  }
]

-- `MessageBufferPool.Put` of a buffer that is there
abbrev pub free : Option ℕ → List ℕ → List ℕ
free none freed = freed
free (some b) freed = freed ++ (b ∷ [])

unfoldable pub free_all : List (ℕ × BlockBuffer) → List ℕ → List ℕ
free_all [] freed = freed
free_all ((begin, b) ∷ blocks) freed = free_all blocks (free b.buffer freed)

abbrev pub total_pieces : TorrentManager → ℕ
total_pieces tm = piece_count tm.total_len tm.piece_len

-- `pieceLen` in `verifyAndWritePiece` and `revertPiece`
abbrev pub length_of : TorrentManager → ℕ → ℕ
length_of tm index = piece_length tm.total_len tm.piece_len (total_pieces tm) index

-- The loop of `revertPiece` over the `r` blocks from block `b` on
unfoldable pub fail_blocks : ℕ → ℕ → ℕ → PiecePicker → PiecePicker
fail_blocks zero b index picker = picker
fail_blocks (suc r) b index picker =
    fail_blocks r (b + 1) index (mark_failed picker index (b * block_size))

-- `revertPiece`
unfoldable pub revert_piece : ℕ → TorrentManager → TorrentManager
unfolding fail_blocks free_all
revert_piece index tm = record tm {
  picker = fail_blocks (blocks_in (length_of tm index)) 0 index tm.picker;
  piece_bufs = delete_at index tm.piece_bufs;
  freed = elim (lookup_at index tm.piece_bufs) [
    | none ↦ tm.freed
    | some blocks ↦ free_all blocks tm.freed
  ];
}

-- The piece that the blocks make, whether none is missing, and the buffers given back
pub record Gathered : Type 0 where
  pub bytes : Bytes
  pub is_whole : Bool
  pub freed : List ℕ

-- The loop of `verifyAndWritePiece` over the `r` blocks from block `b` on
unfoldable pub gather_blocks : ℕ → ℕ → List (ℕ × BlockBuffer) → Bytes → List ℕ → Gathered
gather_blocks zero b blocks piece_data freed = record {
  bytes = piece_data;
  is_whole = true;
  freed = freed;
}
gather_blocks (suc r) b blocks piece_data freed = elim (lookup_at (b * block_size) blocks) [
  | none ↦ record { bytes = piece_data; is_whole = false; freed = freed }
  | some block ↦
      gather_blocks r (b + 1) blocks (copy_at (b * block_size) piece_data block.bytes)
        (free block.buffer freed)
]

-- The hash of a piece in the torrent; the slice panics where the hashes are too few.
abbrev pub hash_of : Bytes → ℕ → Bytes
hash_of hashes index = take 20 (drop (index * 20) hashes)

-- `pieceBufs[index][begin] = BlockBuffer{...}`
unfoldable pub store_block : ℕ → ℕ → BlockBuffer → TorrentManager → TorrentManager
store_block index begin block tm =
    let blocks : List (ℕ × BlockBuffer) = elim (lookup_at index tm.piece_bufs) [
      | none ↦ []
      | some blocks ↦ blocks
    ] in
    record tm { piece_bufs = insert_at index (insert_at begin block blocks) tm.piece_bufs }

-- `close(tm.doneCh)`, which panics if it is closed
abbrev pub close_done : TorrentManager → Option TorrentManager
close_done tm = if tm.is_done then none else some (record tm { is_done = true })

-- The sentinel of a block that timed out
unfoldable pub on_timeout : Bytes → TorrentManager → TorrentManager
on_timeout (a ∷ b ∷ c ∷ d ∷ e ∷ f ∷ g ∷ h ∷ rest) tm = record tm {
  picker = mark_failed tm.picker (u32_of a b c d) (u32_of e f g h);
}
on_timeout _ tm = tm

unfoldable pub on_have : Bytes → Bytes → TorrentManager → TorrentManager
on_have addr (a ∷ b ∷ c ∷ d ∷ rest) tm = record tm {
  picker = update_peer_have tm.picker addr (u32_of a b c d);
}
on_have addr _ tm = tm

module _ (sha1 : Bytes → Bytes) where
  -- `verifyAndWritePiece` behind the loop
  unfoldable pub verify_piece : ℕ → Bytes → TorrentManager → Option TorrentManager
  unfolding revert_piece
  verify_piece index piece_data tm =
      if ltb (length tm.pieces) ((index + 1) * 20)
      then none
      else if bytes_eq (sha1 piece_data) (hash_of tm.pieces index)
      then some (record tm {
        writes = tm.writes ++ (record { index = index; bytes = piece_data } ∷ []);
        piece_bufs = delete_at index tm.piece_bufs;
      })
      else some (revert_piece index tm)

  -- `verifyAndWritePiece`
  unfoldable pub verify_and_write_piece : ℕ → TorrentManager → Option TorrentManager
  unfolding verify_piece gather_blocks
  verify_and_write_piece index tm = elim (lookup_at index tm.piece_bufs) [
    | none ↦ some tm
    | some blocks ↦
        let n = length_of tm index in
        let g = gather_blocks (blocks_in n) 0 blocks (replicate n 0) tm.freed in
        let checked = verify_piece index g.bytes (record tm { freed = g.freed }) in
        if g.is_whole then checked else some (revert_piece index (record tm { freed = g.freed }))
  ]

  -- What `MarkCompleted` returned decides what follows.
  unfoldable pub after_block : Option Progress → ℕ → TorrentManager → Option TorrentManager
  unfolding verify_and_write_piece
  after_block none index tm = some tm
  after_block (some progress) index tm =
      let verified = if progress.piece_done then verify_and_write_piece index tm else some tm in
      elim verified [
        | none ↦ none
        | some next ↦ if progress.all_done then close_done next else some next
      ]

  -- The piece of `handleMessage`
  unfoldable pub on_piece : Bytes → Bytes → Option ℕ → TorrentManager → Option TorrentManager
  unfolding store_block after_block
  on_piece addr (a ∷ b ∷ c ∷ d ∷ e ∷ f ∷ g ∷ h ∷ block) buffer tm =
      let index = u32_of a b c d in
      let begin = u32_of e f g h in
      let stored = store_block index begin (record { bytes = block; buffer = buffer }) tm in
      let (picker, progress) = mark_completed stored.picker index begin addr in
      after_block progress index (record stored { picker = picker })
  on_piece addr _ buffer tm = some tm

  -- `handleMessage`, with the buffer of the message
  unfoldable pub handle_message : PeerMessage → Option ℕ → TorrentManager → Option TorrentManager
  unfolding remove_peer on_piece on_timeout on_have
  handle_message msg buffer tm =
      if msg.id == 0xFF
      then some (record (remove_peer msg.peer_address tm) {
        dropped = tm.dropped ++ (msg.peer_address ∷ []);
      })
      else if msg.id == 0xFE
      then some (on_timeout msg.payload tm)
      else if msg.id == 5
      then some (record tm { picker = update_peer_bitfield tm.picker msg.peer_address msg.payload })
      else if msg.id == 4
      then some (on_have msg.peer_address msg.payload tm)
      else if msg.id == 7
      then on_piece msg.peer_address msg.payload buffer tm
      else some tm

  -- What `Start` does with a message before it asks for more blocks
  unfoldable pub on_message : PeerMessage → Option ℕ → TorrentManager → Option TorrentManager
  unfolding handle_message
  on_message msg buffer tm = elim (handle_message msg buffer tm) [
    | none ↦ none
    | some next ↦
        some (if msg.id == 7 then next else record next { freed = free buffer next.freed })
  ]

-- What `Start` does on a tick, before it asks for more blocks
unfoldable pub on_tick : ℕ → TorrentManager → TorrentManager
on_tick now tm = record tm { picker = (get_stalled_requests tm.picker now 15).0 }

-- The loop of `pipelineRequests` for one client, on fuel
unfoldable pub fill_client : ℕ → Sorter → ℕ → PiecePicker → Link → PiecePicker × Link
fill_client zero sorter now picker client = (picker, client)
fill_client (suc fuel) sorter now picker client =
    let (next, found) = next_block sorter picker client.address now in
    let filled : PiecePicker × Link = elim found [
      | none ↦ (next, client)
      | some b ↦ fill_client fuel sorter now next (queue_request now b.index b.begin b.len client)
    ] in
    if ltb (get_outstanding_count client) 5 then filled else (picker, client)

-- `pipelineRequests`
unfoldable pub fill_clients :
    ℕ → Sorter → ℕ → PiecePicker → List (Bytes × Link) → PiecePicker × List (Bytes × Link)
unfolding fill_client
fill_clients fuel sorter now picker [] = (picker, [])
fill_clients fuel sorter now picker ((addr, client) ∷ peers) =
    let (next, filled) =
      if client.choked then (picker, client) else fill_client fuel sorter now picker client in
    let (last, rest) = fill_clients fuel sorter now next peers in (last, (addr, filled) ∷ rest)

unfoldable pub pipeline_requests : ℕ → Sorter → ℕ → TorrentManager → TorrentManager
unfolding fill_clients
pipeline_requests fuel sorter now tm =
    let (picker, peers) = fill_clients fuel sorter now tm.picker tm.active_peers in
    record tm { picker = picker; active_peers = peers }
