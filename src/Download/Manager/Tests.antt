-- ===== src/Download/Manager/Tests.antt =====
-- A torrent of three bytes in pieces of two, with a hash that is the piece itself behind zeros.
use bittorrent_client_go.Base.{
  get_or, ap, ℕ, ◌*◌, ◌≡◌, ◌≢◌, refl, true, false, none, some, List, [], ◌∷◌, ◌++◌, Bytes, codes,
  bytes_eq, replicate, take, drop, lookup, lookup_at, insert, insert_at, delete_at, put_u32, All,
  copy_at, arith,
}
use bittorrent_client_go.Base.Sorter.Insertion.{insertion_sorter, insertion_sort}
use bittorrent_client_go.Download.Picker.{
  piece_count, new_picker, new_pieces, register_peer, piece_length, blocks_in, reclaim_pieces,
  Piece, completed,
}
use bittorrent_client_go.Download.Picker.Choose.{next_block, update_peer_bitfield}
use bittorrent_client_go.Download.Picker.Settle.{
  Progress, all_completed, mark_completed, get_stalled_requests,
}
use bittorrent_client_go.Peer.Pipeline.{
  start_loop, queue_message, queue_request, get_outstanding_count,
}
use bittorrent_client_go.Download.Manager.{
  BlockBuffer, after_block, on_message, add_peer, pipeline_requests, on_tick, TorrentManager,
  new_torrent_manager, hash_of, gather_blocks, length_of,
}
use bittorrent_client_go.Download.Manager.Run.{Event, joins, hears, ticks, run, storage_loop}
use bittorrent_client_go.Download.Manager.Verified.{IsVerified, run-new_torrent_manager-IsVerified}
use bittorrent_client_go.Download.Manager.Stored.{storage_loop-verified}
use bittorrent_client_go.Download.Manager.Lost.{after_block_mismatch}

abbrev digest : Bytes → Bytes
digest bytes = take 20 (bytes ++ replicate 20 0)

abbrev hashes : Bytes
hashes = digest (codes "ab") ++ digest (codes "c")

abbrev addr : Bytes
addr = codes "10.0.0.1:6881"

abbrev heard : ℕ → Bytes → Event
heard id payload = hears 5 3 (record { peer_address = addr; id = id; payload = payload }) none

-- The two pieces come, the last one first.
abbrev events : List Event
events =
    joins 1 addr []
    ∷ heard 5 (0xc0 ∷ [])
    ∷ heard 1 []
    ∷ heard 7 (put_u32 1 ++ (put_u32 0 ++ codes "c"))
    ∷ ticks 5 4
    ∷ heard 7 (put_u32 0 ++ (put_u32 0 ++ codes "ab"))
    ∷ []

abbrev start : TorrentManager
start = record {
  pieces = hashes;
  total_len = 3;
  piece_len = 2;
  picker = record {
    pieces = new_pieces 2 3 2 2 0;
    peer_pieces = [];
    availability = 0 ∷ 0 ∷ [];
    total_blocks = 2;
    pending_count = 0;
    completed_count = 0;
    end_game = false;
  };
  active_peers = [];
  piece_bufs = [];
  writes = [];
  freed = [];
  dropped = [];
  is_done = false;
}

start_new : new_torrent_manager hashes 3 2 ≡ some start
unfolding new_torrent_manager new_picker new_pieces
start_new = refl

-- What is left after the events
abbrev after : List Event → TorrentManager
after es = elim (run digest insertion_sorter es start) [ none ↦ start | some tm ↦ tm ]

ran : run digest insertion_sorter events start ≡ some (after events)
unfolding run on_message add_peer pipeline_requests on_tick mark_completed get_stalled_requests
    register_peer update_peer_bitfield next_block insert lookup bytes_eq lookup_at insert_at
    delete_at copy_at new_pieces start_loop queue_message queue_request get_outstanding_count
    insertion_sort reclaim_pieces piece_count
ran = refl

stored : storage_loop 2 (after events).writes (replicate 3 0) ≡ codes "abc"
unfolding storage_loop run on_message add_peer pipeline_requests on_tick mark_completed
    get_stalled_requests register_peer update_peer_bitfield next_block insert lookup bytes_eq
    lookup_at insert_at delete_at copy_at new_pieces start_loop queue_message queue_request
    get_outstanding_count insertion_sort reclaim_pieces piece_count
stored = refl

run-new_torrent_manager-IsVerified_example :
    All (IsVerified digest hashes 3 2) (after events).writes
run-new_torrent_manager-IsVerified_example =
    run-new_torrent_manager-IsVerified digest insertion_sorter hashes 3 2 events start
      (after events) start_new ran

storage_loop-verified_example :
    All
      (λ w.
        digest (
          take
            (piece_length 3 2 (piece_count 3 2) w.index)
            (drop (w.index * 2) (storage_loop 2 (after events).writes (replicate 3 0))))
        ≡ hash_of hashes w.index)
      (after events).writes
unfolding piece_count
storage_loop-verified_example =
    storage_loop-verified digest hashes 3 2 (omega arith) refl insertion_sorter events start
      (after events) (replicate 3 0) start_new ran refl

-- The last piece is complete in the picker, with another byte than the torrent's.
abbrev last_piece : Piece
last_piece = record {
  index = 1;
  len = 1;
  blocks = record { index = 1; begin = 0; len = 1; state = completed; peer = addr; sent = 3 } ∷ [];
  is_done = true;
}

abbrev wrong_blocks : List (ℕ × BlockBuffer)
wrong_blocks = (0, record { bytes = codes "d"; buffer = some 4 }) ∷ []

abbrev wrong : TorrentManager
wrong = record start {
  picker = record start.picker {
    pieces = get_or start.picker.pieces 0 last_piece ∷ last_piece ∷ [];
    completed_count = 1;
  };
  piece_bufs = (1, wrong_blocks) ∷ [];
}

wrong_held : lookup_at 1 wrong.piece_bufs ≡ some wrong_blocks
unfolding lookup_at
wrong_held = refl

wrong_completed : all_completed last_piece.blocks ≡ true
unfolding all_completed
wrong_completed = refl

wrong_length : length_of wrong 1 ≡ 1
unfolding piece_length piece_count
wrong_length = refl

wrong_whole :
    (gather_blocks
      (blocks_in (length_of wrong 1))
      0
      wrong_blocks
      (replicate (length_of wrong 1) 0)
      []).is_whole
    ≡ true
unfolding gather_blocks piece_length lookup_at copy_at piece_count
wrong_whole = refl

wrong_digest :
    digest
      (gather_blocks
        (blocks_in (length_of wrong 1))
        0
        wrong_blocks
        (replicate (length_of wrong 1) 0)
        []).bytes
    ≢ hash_of wrong.pieces 1
unfolding gather_blocks piece_length lookup_at copy_at piece_count
wrong_digest e =
    let first : 100 ≡ 99 = ap (λ (s : Bytes). get_or s 0 0) e in absurd (omega (arith, first))

-- The block was the last one of the torrent.
abbrev last_block : Progress
last_block = record { index = 1; piece_done = true; all_done = true }

after_block_mismatch_example :
    (next : TorrentManager) × (after_block digest (some last_block) 1 wrong ≡ some next)
    × (next.writes ≡ wrong.writes)
    × (lookup_at 1 next.piece_bufs ≡ none)
    × (next.picker ≡ wrong.picker)
    × (next.is_done ≡ true)
after_block_mismatch_example =
    after_block_mismatch digest last_block 1 wrong wrong_blocks last_piece refl refl wrong_held refl
      wrong_completed (omega arith) wrong_whole wrong_digest
