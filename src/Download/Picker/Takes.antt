-- ===== src/Download/Picker/Takes.antt =====
-- The loops of `NextBlock` that choose a block, as relations, and what they do to the counts.
use bittorrent_client_go.Base.{
  ℕ, suc, ◌+◌, ◌≡◌, refl, ap, Bool, true, false, Option, none, some, List, [], ◌∷◌, Bool-cases, inl,
  inr, length, get_elem?, set, arith, Option-cases,
}
use bittorrent_client_go.Download.Picker.{
  BlockState, unrequested, pending, completed, Block, Piece, state_eq,
}
use bittorrent_client_go.Download.Picker.Choose.{take_block, take_from, Candidate, Taken}
use bittorrent_client_go.Download.Picker.Settle.{all_completed}
use bittorrent_client_go.Download.Picker.Count.{in_state, one_if, count_in}

abbrev pub OnSome {ℓ κ} : {A : Type ℓ} → (A → Type κ) → Option A → Type κ
OnSome P none = Unit
OnSome P (some a) = P a

-- The first block that passes the test is changed, and is the result.
pub data Takes (test : Block → Bool) (mark : Block → Block)
    : List Block → List Block → Block → Type 0 where
  here :
      {b : Block} {bs : List Block}
      → test b ≡ true
      → Takes test mark (b ∷ bs) (mark b ∷ bs) (mark b)
  there :
      {b c : Block} {bs cs : List Block}
      → test b ≡ false
      → Takes test mark bs cs c
      → Takes test mark (b ∷ bs) (b ∷ cs) c

take_block-Takes :
    (test : Block → Bool) (mark : Block → Block) (bs : List Block)
    → OnSome (λ r. Takes test mark bs r.items r.block) (take_block test mark bs)
unfolding take_block
take_block-Takes test mark [] = tt
take_block-Takes test mark (b ∷ bs) = elim (Bool-cases (test b)) [
  | inl hit ↦ rw hit (here hit)
  | inr miss ↦ rw miss (later (take_block test mark bs) (take_block-Takes test mark bs) miss)
]
  where
    later :
        (o : Option (Taken Block))
        → OnSome (λ r. Takes test mark bs r.items r.block) o
        → test b ≡ false
        → OnSome
            (λ r. Takes test mark (b ∷ bs) r.items r.block)
            (elim o [ none ↦ none | some t ↦ some (record t { items = b ∷ t.items }) ])
    later none h miss = tt
    later (some t) h miss = there miss h

pub state_eq→eq : (s t : BlockState) → state_eq s t ≡ true → s ≡ t
state_eq→eq unrequested unrequested h = refl
state_eq→eq unrequested pending h = cc
state_eq→eq unrequested completed h = cc
state_eq→eq pending unrequested h = cc
state_eq→eq pending pending h = refl
state_eq→eq pending completed h = cc
state_eq→eq completed unrequested h = cc
state_eq→eq completed pending h = cc
state_eq→eq completed completed h = refl

-- The chosen block leaves one state and enters another.
pub Takes-count :
    (t s s' : BlockState) (mark : Block → Block) {bs cs : List Block} {c : Block}
    → ((b : Block) → in_state s b ≡ true → (mark b).state ≡ s')
    → Takes (in_state s) mark bs cs c
    → count_in t cs + one_if (state_eq s t) ≡ count_in t bs + one_if (state_eq s' t)
unfolding count_in
Takes-count t s s' mark g (here {b} {bs} hit) =
    let e : b.state ≡ s = state_eq→eq b.state s hit in rw (g b hit, e) (omega arith)
Takes-count t s s' mark g (there miss k) = omega (arith, Takes-count t s s' mark g k)

pub Takes-length :
    {test : Block → Bool} {mark : Block → Block} {bs cs : List Block} {c : Block}
    → Takes test mark bs cs c
    → length cs ≡ length bs
Takes-length (here hit) = refl
Takes-length (there miss k) = ap suc (Takes-length k)

-- The chosen block was not completed, so the list was not, and is not after the change.
pub Takes-open :
    {s s' : BlockState} {mark : Block → Block} {bs cs : List Block} {c : Block}
    → state_eq s completed ≡ false
    → state_eq s' completed ≡ false
    → ((b : Block) → in_state s b ≡ true → (mark b).state ≡ s')
    → Takes (in_state s) mark bs cs c
    → (all_completed bs ≡ false) × (all_completed cs ≡ false)
unfolding all_completed
Takes-open {s} {s'} n m g (here {b} hit) =
    let e : b.state ≡ s = state_eq→eq b.state s hit in (rw (e, n) refl, rw (g b hit, m) refl)
Takes-open n m g (there {b} {c} {bs} {cs} miss k) = let (x, y) = Takes-open n m g k in ground arith

-- Over the pieces: one candidate's piece has the block.
pub record TakesFrom (test : Block → Bool) (mark : Block → Block) (ps qs : List Piece) (c : Block)
    : Type 0 where
  pub at : ℕ
  pub piece : Piece
  pub blocks : List Block
  pub found : get_elem? ps at ≡ some piece
  pub takes : Takes test mark piece.blocks blocks c
  pub result : qs ≡ set ps at (record piece { blocks = blocks })

take_from-step :
    (test : Block → Bool) (mark : Block → Block) (i : ℕ) (ps : List Piece) (p : Piece)
    (o : Option (Taken Block)) (rest : Option (Taken Piece))
    → get_elem? ps i ≡ some p
    → OnSome (λ r. Takes test mark p.blocks r.items r.block) o
    → OnSome (λ r. TakesFrom test mark ps r.items r.block) rest
    → OnSome
        (λ r. TakesFrom test mark ps r.items r.block)
        (elim o [
          | none ↦ rest
          | some t ↦
              some (record { items = set ps i (record p { blocks = t.items }); block = t.block })
        ])
take_from-step test mark i ps p none rest e h k = k
take_from-step test mark i ps p (some t) rest e h k = record {
  at = i;
  piece = p;
  blocks = t.items;
  found = e;
  takes = h;
  result = refl;
}

pub take_from-TakesFrom :
    (test : Block → Bool) (mark : Block → Block) (cs : List Candidate) (ps : List Piece)
    → OnSome (λ r. TakesFrom test mark ps r.items r.block) (take_from test mark cs ps)
unfolding take_from
take_from-TakesFrom test mark [] ps = tt
take_from-TakesFrom test mark (c ∷ cs) ps = elim (Option-cases (get_elem? ps c.index)) [
  | inl e ↦ rw (e, OnSome) (take_from-TakesFrom test mark cs ps)
  | inr (p, e) ↦
      rw (e, OnSome)
        (take_from-step test mark c.index ps p (take_block test mark p.blocks)
          (take_from test mark cs ps) e (take_block-Takes test mark p.blocks)
          (take_from-TakesFrom test mark cs ps))
]
