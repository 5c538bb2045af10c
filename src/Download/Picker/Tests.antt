-- ===== src/Download/Picker/Tests.antt =====
-- The picker on a torrent of three pieces of two blocks, and the theorems at such inputs.
use bittorrent_client_go.Base.{
  ℕ, ◌≡◌, ◌↔◌, refl, true, false, some, List, [], ◌∷◌, Bytes, codes, arith, lookup, insert,
  bytes_eq, All, ◌++◌,
}
use bittorrent_client_go.Base.Sorter.Insertion.{insertion_sorter, insertion_sort}
use bittorrent_client_go.Download.Picker.{
  piece_count, is_negative_count, PiecePicker, new_picker, new_pieces, register_peer,
}
use bittorrent_client_go.Download.Picker.Choose.{
  next_block, update_peer_bitfield, update_peer_have, starts_end_game, gather,
}
use bittorrent_client_go.Download.Picker.Settle.{is_completed, state_at}
use bittorrent_client_go.Download.Picker.Count.{sum_of}
use bittorrent_client_go.Download.Picker.Counted.{IsCounted}
use bittorrent_client_go.Download.Picker.Fresh.{IsFresh, new_picker_lem}
use bittorrent_client_go.Download.Picker.History.{
  completes, Call, registers, unregisters, has_pieces, has_piece, asks, fails, run, step,
  run-new_picker,
}
use bittorrent_client_go.Download.Picker.Done.{AllDone, is_completed_iff}
use bittorrent_client_go.Download.Picker.EndGame.{IsStarved, end_game_starves}

abbrev total : ℕ
total = 80000

abbrev normal : ℕ
normal = 32768

-- The picker for 80000 bytes in pieces of 32768 bytes.
abbrev start : PiecePicker
start = record {
  pieces = new_pieces 3 80000 32768 3 0;
  peer_pieces = [];
  availability = 0 ∷ 0 ∷ 0 ∷ [];
  total_blocks = 5;
  pending_count = 0;
  completed_count = 0;
  end_game = false;
}

start_new : new_picker total normal ≡ some start
unfolding new_picker piece_count is_negative_count
start_new = refl

abbrev alice : Bytes
alice = codes "10.0.0.1:6881"

abbrev bob : Bytes
bob = codes "10.0.0.2:6881"

-- Alice has the last piece only, which is one block; Bob has all pieces.
abbrev calls : List Call
calls =
    registers alice
    ∷ has_piece alice 2
    ∷ registers bob
    ∷ has_pieces bob (0xe0 ∷ [])
    ∷ asks alice 7
    ∷ []

-- A second request for Alice, who has nothing left to ask for, turns end-game mode on.
end_game_early : (run insertion_sorter start (calls ++ asks alice 8 ∷ [])).end_game ≡ true
unfolding run step next_block register_peer update_peer_have update_peer_bitfield lookup insert
    bytes_eq new_pieces insertion_sort piece_count
end_game_early = refl

abbrev begun : PiecePicker
begun = run insertion_sorter start calls

-- Bob asks, and other blocks fail and are completed; the first piece stays unrequested.
abbrev later : List Call
later = asks bob 9 ∷ fails 2 0 ∷ unregisters alice ∷ completes 1 0 bob ∷ asks bob 10 ∷ []

end_game_starves_example :
    IsStarved 0 0 (run insertion_sorter (next_block insertion_sorter begun alice 8).0 later)
unfolding run step next_block register_peer update_peer_have update_peer_bitfield lookup insert
    bytes_eq new_pieces insertion_sort gather starts_end_game state_at piece_count
end_game_starves_example =
    end_game_starves 0 0 insertion_sorter begun alice 8 (false ∷ false ∷ true ∷ [])
      (record { index = 2; avail = 2 }) [] later refl refl refl (_, refl, refl)
      (tt, (tt, (tt, ((λ e. absurd (omega (arith, e.0))), (tt, tt)))))

abbrev ended : PiecePicker
ended = record start { end_game = true }

run-new_picker_example : IsCounted begun
run-new_picker_example = run-new_picker insertion_sorter total normal calls start_new

new_picker_lem_example :
    (p : PiecePicker) × (new_picker total normal ≡ some p)
    × (sum_of (λ q. q.len) p.pieces ≡ total)
    × All (IsFresh normal) p.pieces
    × IsCounted p
new_picker_lem_example = new_picker_lem total normal (omega arith) (omega arith) (omega arith)

is_completed_iff_example : (is_completed begun ≡ true) ↔ AllDone begun.pieces
is_completed_iff_example = is_completed_iff insertion_sorter total normal calls start_new
