-- ===== src/Download/Picker/OpenBlocks.antt =====
-- Blocks that nobody has been asked for, and what the changes of a piece do to them.
use bittorrent_client_go.Base.{
  ℕ, zero, suc, ◌≡◌, refl, Bool, false, some, List, [], ◌∷◌, Bool-cases, inl, inr, arith, Bytes,
  get_elem?, set, ◌==◌,
}
use bittorrent_client_go.Download.Picker.{
  unrequested, pending, Block, Piece, reclaim, reclaim_pieces, put_back,
}
use bittorrent_client_go.Download.Picker.Choose.{resend}
use bittorrent_client_go.Download.Picker.Settle.{state_at, change_at, completed_by}
use bittorrent_client_go.Download.Picker.Count.{in_state}
use bittorrent_client_go.Download.Picker.Takes.{Takes, state_eq→eq}

-- Nobody has been asked for the block at this offset of these blocks.
abbrev pub IsOpen : ℕ → List Block → Type 0
IsOpen begin bs = state_at begin bs ≡ some unrequested

reclaim-IsOpen :
    (begin : ℕ) (test : Block → Bool) (bs : List Block) (n : ℕ) (out : List Block)
    → IsOpen begin bs
    → IsOpen begin (reclaim test bs n out).items
unfolding reclaim state_at
reclaim-IsOpen begin test [] n out h = h
reclaim-IsOpen begin test (b ∷ bs) n out h = elim (Bool-cases (b.begin == begin)) [
  | inl at ↦
      let found : some b.state ≡ some unrequested = rw at at h in
      elim (Bool-cases (test b)) [ inl hit ↦ rw (hit, at) refl | inr miss ↦ rw (miss, at) found ]
  | inr past ↦
      let found : IsOpen begin bs = rw past at h in
      elim (Bool-cases (test b)) [
        | inl hit ↦ rw (hit, past) (reclaim-IsOpen begin test bs _ _ found)
        | inr miss ↦ rw (miss, past) (reclaim-IsOpen begin test bs _ _ found)
      ]
]

pub Takes-IsOpen :
    (begin now : ℕ) {bs cs : List Block} {c : Block}
    → Takes (in_state pending) (resend now) bs cs c
    → IsOpen begin bs
    → IsOpen begin cs
unfolding state_at
Takes-IsOpen begin now (Takes.here {b} {bs} hit) h = elim (Bool-cases (b.begin == begin)) [
  | inl at ↦
      let found : some b.state ≡ some unrequested = rw at at h in
      let asked : b.state ≡ pending = state_eq→eq b.state pending hit in absurd (ground arith)
  | inr past ↦ let found : IsOpen begin bs = rw past at h in rw past found
]
Takes-IsOpen begin now (Takes.there {b} {c} {bs} {cs} miss k) h =
    elim (Bool-cases (b.begin == begin)) [
      | inl at ↦ let found : some b.state ≡ some unrequested = rw at at h in rw at found
      | inr past ↦
          let found : IsOpen begin bs = rw past at h in rw past (Takes-IsOpen begin now k found)
    ]

pub put_back-IsOpen :
    (begin at : ℕ) (bs : List Block) → IsOpen begin bs → IsOpen begin (change_at at put_back bs)
unfolding change_at state_at
put_back-IsOpen begin at [] h = h
put_back-IsOpen begin at (b ∷ bs) h = elim (Bool-cases (b.begin == begin)) [
  | inl here ↦
      let found : some b.state ≡ some unrequested = rw here at h in
      elim (Bool-cases (b.begin == at)) [
        | inl hit ↦ rw (hit, here) refl
        | inr miss ↦ rw (miss, here) found
      ]
  | inr past ↦
      let found : IsOpen begin bs = rw past at h in
      elim (Bool-cases (b.begin == at)) [
        | inl hit ↦ rw (hit, past) found
        | inr miss ↦ rw (miss, past) (put_back-IsOpen begin at bs found)
      ]
]

pub completed_by-IsOpen :
    (begin at : ℕ) (addr : Bytes) (bs : List Block)
    → ¬ (at ≡ begin)
    → IsOpen begin bs
    → IsOpen begin (change_at at (completed_by addr) bs)
unfolding change_at state_at
completed_by-IsOpen begin at addr [] n h = h
completed_by-IsOpen begin at addr (b ∷ bs) n h = elim (Bool-cases (b.begin == begin)) [
  | inl here ↦
      let found : some b.state ≡ some unrequested = rw here at h in
      let miss : (b.begin == at) ≡ false = ground arith in rw (miss, here) found
  | inr past ↦
      let found : IsOpen begin bs = rw past at h in
      elim (Bool-cases (b.begin == at)) [
        | inl hit ↦ rw (hit, past) found
        | inr miss ↦ rw (miss, past) (completed_by-IsOpen begin at addr bs n found)
      ]
]

-- Nobody has been asked for the block at offset `begin` of piece `i`.
abbrev pub OpenAt : ℕ → ℕ → List Piece → Type 0
OpenAt i begin ps = (x : Piece) × (get_elem? ps i ≡ some x) × IsOpen begin x.blocks

pub set-OpenAt :
    (i begin : ℕ) (ps : List Piece) (at : ℕ) (x y : Piece)
    → get_elem? ps at ≡ some x
    → (at ≡ i → IsOpen begin x.blocks → IsOpen begin y.blocks)
    → OpenAt i begin ps
    → OpenAt i begin (set ps at y)
set-OpenAt i begin [] at x y e f h = h
set-OpenAt zero begin (p ∷ ps) zero x y e f (z, found, o) =
    let same : z ≡ x = ground arith in (y, refl, f refl (rw same at o))
set-OpenAt (suc i) begin (p ∷ ps) zero x y e f h = h
set-OpenAt zero begin (p ∷ ps) (suc at) x y e f h = h
set-OpenAt (suc i) begin (p ∷ ps) (suc at) x y e f h =
    set-OpenAt i begin ps at x y e (λ k. f (omega arith)) h

pub reclaim_pieces-OpenAt :
    (i begin : ℕ) (test : Block → Bool) (ps : List Piece) (n : ℕ) (out : List Block)
    → OpenAt i begin ps
    → OpenAt i begin (reclaim_pieces test ps n out).items
unfolding reclaim_pieces
reclaim_pieces-OpenAt i begin test [] n out h = h
reclaim_pieces-OpenAt zero begin test (p ∷ ps) n out (x, found, o) =
    let same : x ≡ p = ground arith in
    let here : IsOpen begin p.blocks = rw same at o in
    elim (Bool-cases p.is_done) [
      | inl done ↦ rw done (_, refl, here)
      | inr todo ↦ rw todo (_, refl, reclaim-IsOpen begin test p.blocks n out here)
    ]
reclaim_pieces-OpenAt (suc i) begin test (p ∷ ps) n out h =
    reclaim_pieces-OpenAt i begin test ps _ _ h
