-- ===== src/Download/Picker/Fresh.antt =====
-- What `NewPiecePicker` builds: the pieces tile the torrent, and the blocks tile each piece.
use native.Mathlib.Nat.{div-mul-le_self}
use bittorrent_client_go.Base.{
  ◌⊎◌, none, int_bound, leb, ap, ◌||◌, true, ℕ, zero, suc, ◌+◌, ◌-◌, ◌≤◌, ◌<◌, ◌≡◌, refl, sym,
  false, some, List, [], ◌∷◌, ltb, ◌==◌, Bool-cases, inl, inr, All, arith, ◌*◌, ◌/◌, replicate,
}
use bittorrent_client_go.Download.Picker.{
  BlockState, unrequested, pending, completed, Piece, PiecePicker, state_eq, new_blocks, new_pieces,
  new_picker, count_blocks,
}
use bittorrent_client_go.Download.Picker.Settle.{all_completed}
use bittorrent_client_go.Download.Picker.Count.{
  count_in, sum_of, count_all, IsFlagged, count_blocks-total,
}
use bittorrent_client_go.Download.Picker.Counted.{IsCounted}
use bittorrent_client_go.Download.Picker.{piece_count, is_negative_count}
use bittorrent_client_go.Download.Picker.Pieces.{piece_count-fits, piece_count-cases}
use bittorrent_client_go.Download.Picker.{blocks_in, piece_length}
use bittorrent_client_go.Download.Picker.Tiles.{Tiles, new_piece-Tiles}

mul_mono : (a b n : ℕ) → a ≤ b → a * n ≤ b * n
mul_mono a b n h = grind arith

-- The lengths of the pieces from the `i`-th on add up to what is left of the torrent.
new_pieces-sum :
    (r total normal count i : ℕ)
    → i + suc r ≡ count
    → (count - 1) * normal ≤ total
    → i * normal + sum_of (λ p. p.len) (new_pieces (suc r) total normal count i) ≡ total
unfolding sum_of new_pieces
new_pieces-sum zero total normal count i e k =
    let last : i ≡ count - 1 = omega arith in
    let h : i * normal ≤ total = rw last k in
    let flag : (i + 1 == count) ≡ true = ground arith in rw flag (omega (arith, h))
new_pieces-sum (suc r) total normal count i e k =
    let ih = new_pieces-sum r total normal count (i + 1) (omega arith) k in
    let inner : (i + 1 == count) ≡ false = ground arith in rw inner (omega (arith, ih))

all_pieces-sum :
    (c total normal : ℕ)
    → 0 < c
    → (c - 1) * normal ≤ total
    → sum_of (λ p. p.len) (new_pieces c total normal c 0) ≡ total
all_pieces-sum zero total normal h k = elim h [ ]
all_pieces-sum (suc r) total normal h k =
    omega (arith, new_pieces-sum r total normal (suc r) 0 (omega arith) k)

count_of_length :
    (total normal : ℕ)
    → 0 < normal
    → 0 < total
    → let c = (total + normal - 1) / normal in
      (0 < c) × ((c - 1) * normal < total) × (total ≤ (c - 1) * normal + normal)
count_of_length total normal h k = grind arith

new_blocks-count :
    (s : BlockState) (n i len b : ℕ)
    → state_eq unrequested s ≡ false
    → count_in s (new_blocks n i len b) ≡ 0
unfolding count_in new_blocks
new_blocks-count s zero i len b e = refl
new_blocks-count s (suc n) i len b e = rw e (omega (arith, new_blocks-count s n i len (b + 1) e))

new_pieces-count :
    (s : BlockState) (r total normal count i : ℕ)
    → state_eq unrequested s ≡ false
    → count_all s (new_pieces r total normal count i) ≡ 0
unfolding sum_of new_pieces
new_pieces-count s zero total normal count i e = refl
new_pieces-count s (suc r) total normal count i e = omega (
  arith,
  new_pieces-count s r total normal count (i + 1) e,
  new_blocks-count s (blocks_in (piece_length total normal count i)) i
      (piece_length total normal count i) 0 e,
)

-- A piece of a new picker: not empty, no longer than the others, tiled by its blocks, not done.
pub record IsFresh (normal : ℕ) (q : Piece) : Type 0 where
  pub not_empty : 0 < q.len
  pub short : q.len ≤ normal
  pub tiled : Tiles 0 q.len q.blocks
  pub flagged : IsFlagged q

piece_length_bounds :
    (total normal count i : ℕ)
    → i < count
    → 0 < normal
    → total ≤ (count - 1) * normal + normal
    → (count - 1) * normal < total
    → (0 < piece_length total normal count i) × (piece_length total normal count i ≤ normal)
unfolding piece_length
piece_length_bounds total normal count i h n u k = elim (Bool-cases (i + 1 == count)) [
  | inl last ↦
      let e : i ≡ count - 1 = ground arith in
      let place : i * normal ≡ (count - 1) * normal = ap (λ k. k * normal) e in
      rw last (omega (arith, place), omega (arith, place))
  | inr inner ↦ rw inner (n, omega arith)
]

new_blocks-flag : (n i len b : ℕ) → 0 < n → all_completed (new_blocks n i len b) ≡ false
unfolding all_completed new_blocks
new_blocks-flag zero i len b h = absurd (omega arith)
new_blocks-flag (suc n) i len b h = refl

new_pieces-IsFresh :
    (r total normal count i : ℕ)
    → i + r ≡ count
    → 0 < normal
    → total ≤ (count - 1) * normal + normal
    → (count - 1) * normal < total
    → All (IsFresh normal) (new_pieces r total normal count i)
unfolding new_pieces
new_pieces-IsFresh zero total normal count i e n u k = tt
new_pieces-IsFresh (suc r) total normal count i e n u k =
    let (lo, hi) = piece_length_bounds total normal count i (omega arith) n u k in
    (
      record {
        not_empty = lo;
        short = hi;
        tiled = new_piece-Tiles total normal count i;
        flagged = sym (new_blocks-flag _ i _ 0 (omega arith));
      },
      new_pieces-IsFresh r total normal count (i + 1) (omega arith) n u k,
    )

replicate_new-IsCounted :
    (total normal count : ℕ) (avail : List ℕ)
    → All IsFlagged (new_pieces count total normal count 0)
    → IsCounted (record {
      pieces = new_pieces count total normal count 0;
      peer_pieces = [];
      availability = avail;
      total_blocks = count_blocks (new_pieces count total normal count 0);
      pending_count = 0;
      completed_count = 0;
      end_game = false;
    })
replicate_new-IsCounted total normal count avail a = record {
  pending_is = sym (new_pieces-count pending count total normal count 0 refl);
  completed_is = sym (new_pieces-count completed count total normal count 0 refl);
  total_is = count_blocks-total _;
  flags = a;
}

fresh_flags : (normal : ℕ) (ps : List Piece) → All (IsFresh normal) ps → All IsFlagged ps
fresh_flags normal [] h = tt
fresh_flags normal (q ∷ ps) h = (h.0.flagged, fresh_flags normal ps h.1)

no_piece : (total normal : ℕ) → 0 < normal → total ≡ 0 → (total + normal - 1) / normal ≡ 0
no_piece total normal h e = elim (Bool-cases ((total + normal - 1) / normal == 0)) [
  | inl zero_count ↦ ground arith
  | inr more ↦
      let q = (total + normal - 1) / normal in
      let one : 1 ≤ q = ground arith in
      absurd (omega (arith, div-mul-le_self (total + normal - 1) normal, mul_mono 1 q normal one))
]

-- A count of zero, or one piece or more with each of them fresh
new_pieces-IsFlagged :
    (total normal : ℕ)
    → 0 < normal
    → let c = piece_count total normal in All IsFlagged (new_pieces c total normal c 0)
unfolding new_pieces
new_pieces-IsFlagged total normal h = elim (piece_count-cases total normal) [
  | inl exact ↦ elim (Bool-cases (ltb 0 total)) [
    | inl some_bytes ↦
        let (pos, below, above) = count_of_length total normal h (ground arith) in
        rw exact (
          fresh_flags normal _ (
            new_pieces-IsFresh ((total + normal - 1) / normal) total normal
              ((total + normal - 1) / normal) 0 (omega arith) h above below))
    | inr empty ↦
        let zero_count : (total + normal - 1) / normal ≡ 0 =
          no_piece total normal h (ground arith) in
        rw (exact, zero_count) tt
  ]
  | inr nothing ↦ rw nothing tt
]

-- Of a non-empty torrent with a positive piece length, where `totalLength + normalPieceLength - 1` is
-- less than 2^63: a new picker is made, the lengths of its pieces add up to the length of the torrent, each
-- piece is non-empty, at most `normal` long, and tiled from offset 0 to its length by non-empty blocks of
-- at most 16 KiB, and the counters are right.
pub new_picker_lem :
    (total normal : ℕ)
    → 0 < normal
    → 0 < total
    → total + normal - 1 < int_bound
    → (p : PiecePicker) × (new_picker total normal ≡ some p)
      × (sum_of (λ q. q.len) p.pieces ≡ total)
      × All (IsFresh normal) p.pieces
      × IsCounted p
unfolding new_picker is_negative_count
new_picker_lem total normal h k fits =
    let c = piece_count total normal in
    let exact = piece_count-fits total normal fits in
    let bounds : (0 < c) × ((c - 1) * normal < total) × (total ≤ (c - 1) * normal + normal) =
      rw exact (count_of_length total normal h k) in
    let (pos, below, above) = bounds in
    let made : leb int_bound (total + normal - 1) ≡ false = ground arith in
    let divides : (normal == 0) ≡ false = ground arith in
    let fresh = new_pieces-IsFresh c total normal c 0 (omega arith) h above below in
    (
      _,
      rw (divides, made) refl,
      all_pieces-sum c total normal pos (omega (arith, below)),
      fresh,
      replicate_new-IsCounted total normal c (replicate c 0)
          (fresh_flags normal (new_pieces c total normal c 0) fresh),
    )

-- No picker is made, or one whose counters are right, also where it has no piece.
new_picker-cases :
    (total normal : ℕ)
    → (new_picker total normal ≡ none)
      ⊎ ((p : PiecePicker) × (new_picker total normal ≡ some p) × IsCounted p)
unfolding new_picker
new_picker-cases total normal =
    let c = piece_count total normal in
    elim (Bool-cases (normal == 0 || is_negative_count total normal)) [
      | inl panics ↦ inl (rw panics refl)
      | inr made ↦ inr (
        _,
        rw made refl,
        replicate_new-IsCounted total normal c (replicate c 0)
            (new_pieces-IsFlagged total normal (ground arith)),
      )
    ]

pub new_picker-IsCounted :
    (total normal : ℕ) {p : PiecePicker} → new_picker total normal ≡ some p → IsCounted p
new_picker-IsCounted total normal {p} e = elim (new_picker-cases total normal) [
  | inl panics ↦ absurd (ground arith)
  | inr (q, new, v) ↦ let same : q ≡ p = ground arith in rw same at v
]
