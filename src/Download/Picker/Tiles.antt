-- ===== src/Download/Picker/Tiles.antt =====
-- The blocks of a new piece tile it.
use bittorrent_client_go.Base.{
  ℕ, zero, suc, ◌+◌, ◌≤◌, ◌<◌, ◌≡◌, List, [], ◌∷◌, ltb, tests, Bool-cases, inl, inr, arith, ◌*◌,
  min,
}
use bittorrent_client_go.Download.Picker.{Block, new_blocks, new_piece}
use bittorrent_client_go.Download.Picker.{block_size, blocks_in, piece_length}

-- Each block begins where the one before it ends, the last ends at `last`, and none is empty or
-- longer than 16 KiB.
abbrev pub Tiles : ℕ → ℕ → List Block → Type 0
Tiles start last [] = start ≡ last
Tiles start last (b ∷ bs) =
    (b.begin ≡ start) × (0 < b.len) × (b.len ≤ block_size) × Tiles (start + b.len) last bs

new_blocks-Tiles :
    (n i len b start : ℕ)
    → b + n ≡ blocks_in len
    → start ≡ min (b * block_size) len
    → Tiles start len (new_blocks n i len b)
unfolding new_blocks
new_blocks-Tiles zero i len b start e s = omega arith
new_blocks-Tiles (suc n) i len b start e s =
    elim (Bool-cases (ltb len (b * block_size + block_size))) [
      | inl short ↦ rw short (
        omega arith,
        omega (tests),
        omega tests,
        new_blocks-Tiles n i len (b + 1) _ (omega arith) (omega tests),
      )
      | inr full ↦ rw full (
        omega arith,
        omega arith,
        omega arith,
        new_blocks-Tiles n i len (b + 1) _ (omega arith) (ground arith),
      )
    ]

pub new_piece-Tiles :
    (total normal count i : ℕ)
    → Tiles 0 (new_piece total normal count i).len (new_piece total normal count i).blocks
unfolding new_piece
new_piece-Tiles total normal count i =
    new_blocks-Tiles (blocks_in n) i n 0 0 (omega arith) (omega arith)
  where
    n : ℕ
    n = piece_length total normal count i
