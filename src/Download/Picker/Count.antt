-- ===== src/Download/Picker/Count.antt =====
-- How many blocks are in each state, and how the picker's loops change that.
use bittorrent_client_go.Base.{
  ℕ, zero, suc, ◌+◌, ◌-◌, ◌≤◌, ◌≡◌, refl, sym, ap, ◌∙◌, Bool, true, some, List, [], ◌∷◌, ◌++◌, ◌==◌,
  if◌then◌else◌, Bool-cases, inl, inr, length, get_elem?, set, All, arith,
}
use bittorrent_client_go.Download.Picker.{
  BlockState, pending, completed, Block, Piece, state_eq, reclaim, reclaim_pieces, count_blocks,
}
use bittorrent_client_go.Download.Picker.Settle.{state_at, change_at, all_completed}

abbrev pub in_state : BlockState → Block → Bool
in_state s b = state_eq b.state s

abbrev pub one_if : Bool → ℕ
one_if b = if b then 1 else 0

unfoldable pub count_in : BlockState → List Block → ℕ
count_in s [] = 0
count_in s (b ∷ bs) = one_if (in_state s b) + count_in s bs

unfoldable pub sum_of : (Piece → ℕ) → List Piece → ℕ
sum_of w [] = 0
sum_of w (p ∷ ps) = w p + sum_of w ps

-- The blocks of all pieces that are in this state.
abbrev pub count_all : BlockState → List Piece → ℕ
count_all s = sum_of (λ p. count_in s p.blocks)

abbrev pub blocks_total : List Piece → ℕ
blocks_total = sum_of (λ p. length p.blocks)

pub count_blocks-total : (ps : List Piece) → count_blocks ps ≡ blocks_total ps
unfolding count_blocks sum_of
count_blocks-total [] = refl
count_blocks-total (p ∷ ps) = omega (arith, count_blocks-total ps)

pub sum_of-set :
    (w : Piece → ℕ) (ps : List Piece) (i : ℕ) (p q : Piece)
    → get_elem? ps i ≡ some p
    → sum_of w (set ps i q) + w p ≡ sum_of w ps + w q
unfolding sum_of
sum_of-set w [] i p q h = cc
sum_of-set w (x ∷ ps) zero p q h = let e : w x ≡ w p = ground arith in omega arith
sum_of-set w (x ∷ ps) (suc i) p q h = omega (arith, sum_of-set w ps i p q h)

module _ {ℓ κ} {A : Type ℓ} where
  pub All-set : (P : A → Type κ) (xs : List A) (i : ℕ) (y : A) → All P xs → P y → All P (set xs i y)
  All-set P [] i y a h = tt
  All-set P (x ∷ xs) zero y a h = (h, a.1)
  All-set P (x ∷ xs) (suc i) y a h = (a.0, All-set P xs i y a.1 h)

-- What a change of the first block at an offset does to the counts.
pub change_at-count :
    (t s s' : BlockState) (begin : ℕ) (f : Block → Block) (bs : List Block)
    → ((b : Block) → (f b).state ≡ s')
    → state_at begin bs ≡ some s
    → count_in t (change_at begin f bs) + one_if (state_eq s t)
      ≡ count_in t bs + one_if (state_eq s' t)
unfolding change_at state_at count_in
change_at-count t s s' begin f [] g h = cc
change_at-count t s s' begin f (b ∷ bs) g h = elim (Bool-cases (b.begin == begin)) [
  | inl hit ↦ let e : b.state ≡ s = ground arith in rw hit (rw (g b, e) (omega arith))
  | inr miss ↦ rw miss (omega (arith, change_at-count t s s' begin f bs g (ground arith)))
]

pub length-change_at :
    (begin : ℕ) (f : Block → Block) (bs : List Block) → length (change_at begin f bs) ≡ length bs
unfolding change_at
length-change_at begin f [] = refl
length-change_at begin f (b ∷ bs) = elim (Bool-cases (b.begin == begin)) [
  | inl hit ↦ rw hit refl
  | inr miss ↦ rw miss (ap suc (length-change_at begin f bs))
]

-- The facts about a list of blocks that the counters and flags of the picker depend on.
pub record SameCounts (bs cs : List Block) : Type 0 where
  pub completed_same : count_in completed cs ≡ count_in completed bs
  pub length_same : length cs ≡ length bs
  pub done_same : all_completed cs ≡ all_completed bs

-- Putting blocks back takes as much off the counter as off the pending blocks.
pub reclaim-count :
    (test : Block → Bool) (bs : List Block) (n : ℕ) (out : List Block)
    → ((b : Block) → test b ≡ true → b.state ≡ pending)
    → count_in pending bs ≤ n
    → let r = reclaim test bs n out in
      (r.count + count_in pending bs ≡ n + count_in pending r.items) × SameCounts bs r.items
unfolding reclaim count_in all_completed
reclaim-count test [] n out imp h =
    (refl, record { completed_same = refl; length_same = refl; done_same = refl })
reclaim-count test (b ∷ bs) n out imp h = elim (Bool-cases (test b)) [
  | inl hit ↦
      let e = imp b hit in
      let (c, same) = reclaim-count test bs (n - 1) (out ++ b ∷ []) imp (ground arith) in
      rw hit (ground arith)
  | inr miss ↦
      let (c, same) = reclaim-count test bs n out imp (ground arith) in rw miss (ground arith)
]

-- The same over the pieces.
pub record SamePieces (ps qs : List Piece) : Type 0 where
  pub completed_same : count_all completed qs ≡ count_all completed ps
  pub length_same : blocks_total qs ≡ blocks_total ps

-- The flag of a piece says whether all its blocks are completed.
abbrev pub IsFlagged : Piece → Type 0
IsFlagged p = p.is_done ≡ all_completed p.blocks

pub reclaim_pieces-count :
    (test : Block → Bool) (ps : List Piece) (n : ℕ) (out : List Block)
    → ((b : Block) → test b ≡ true → b.state ≡ pending)
    → count_all pending ps ≤ n
    → All IsFlagged ps
    → let r = reclaim_pieces test ps n out in
      (r.count + count_all pending ps ≡ n + count_all pending r.items)
      × SamePieces ps r.items
      × All IsFlagged r.items
unfolding reclaim_pieces sum_of
reclaim_pieces-count test [] n out imp h a =
    (refl, record { completed_same = refl; length_same = refl }, tt)
reclaim_pieces-count test (p ∷ ps) n out imp h a = elim (Bool-cases p.is_done) [
  | inl done ↦
      let (c, same, flags) = reclaim_pieces-count test ps n out imp (omega arith) a.1 in
      rw done (
        omega arith,
        record {
          completed_same = omega (arith, same.completed_same);
          length_same = omega (arith, same.length_same);
        },
        (sym done ∙ a.0, flags),
      )
  | inr todo ↦
      let r = reclaim test p.blocks n out in
      let (d, here) = reclaim-count test p.blocks n out imp (omega arith) in
      let (c, same, flags) =
        reclaim_pieces-count test ps r.count r.stalled imp (omega (arith, d)) a.1 in
      rw todo (
        omega (arith, c, d),
        record {
          completed_same = omega (arith, same.completed_same, here.completed_same);
          length_same = omega (arith, same.length_same, here.length_same);
        },
        (sym todo ∙ a.0 ∙ sym here.done_same, flags),
      )
]
