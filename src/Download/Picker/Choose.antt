-- ===== src/Download/Picker/Choose.antt =====
-- download/picker.go: what a peer has (`UpdatePeerBitfield`, `UpdatePeerHave`), and the choice of
-- the next block (`NextBlock`).
use Prim.Native.Nat.{bit_and}
use bittorrent_client_go.Base.{
  ℕ, ◌+◌, ◌-◌, ◌/◌, ◌%◌, ◌^◌, Bool, true, false, not, ◌&&◌, ◌||◌, Option, none, some, List, [], ◌∷◌,
  Bytes, ltb, ◌==◌, if◌then◌else◌, length, get_elem?, get_or, set, lookup, insert,
}
use bittorrent_client_go.Base.Sorter.{Sorter}
use bittorrent_client_go.Download.Picker.{unrequested, pending, Block, Piece, PiecePicker, state_eq}

-- `(bitfield[byteIndex] & (1 << bitIndex)) != 0`, false behind the end of the bitfield
unfoldable pub has_bit : Bytes → ℕ → Bool
has_bit bitfield i = elim (get_elem? bitfield (i / 8)) [
  | none ↦ false
  | some byte ↦ not (bit_and byte (2 ^ (7 - i % 8)) == 0)
]

-- The bitmap of a peer and the availability, which change together.
pub record Holdings : Type 0 where
  pub bits : List Bool
  pub avail : List ℕ

-- The loop of `UpdatePeerBitfield`, from index `i` on.
unfoldable pub mark_bits : Bytes → ℕ → List Bool → List ℕ → Holdings
unfolding has_bit
mark_bits bitfield i (old ∷ bits) (a ∷ avail) =
    let gained = has_bit bitfield i && not old in
    let rest = mark_bits bitfield (i + 1) bits avail in
    record {
      bits = (if gained then true else old) ∷ rest.bits;
      avail = (if gained then a + 1 else a) ∷ rest.avail;
    }
mark_bits bitfield i bits avail = record { bits = bits; avail = avail }

-- `UpdatePeerBitfield`
unfoldable pub update_peer_bitfield : PiecePicker → Bytes → Bytes → PiecePicker
unfolding mark_bits
update_peer_bitfield p addr bitfield = elim (lookup addr p.peer_pieces) [
  | none ↦ p
  | some bits ↦
      let h = mark_bits bitfield 0 bits p.availability in
      record p { peer_pieces = insert addr h.bits p.peer_pieces; availability = h.avail }
]

-- `UpdatePeerHave`
unfoldable pub update_peer_have : PiecePicker → Bytes → ℕ → PiecePicker
update_peer_have p addr i = elim (lookup addr p.peer_pieces) [
  | none ↦ p
  | some bits ↦
      if ltb i (length bits) && not (get_or bits i false)
      then record p {
        peer_pieces = insert addr (set bits i true) p.peer_pieces;
        availability = set p.availability i (get_or p.availability i 0 + 1);
      }
      else p
]

-- `candidatePiece`
pub record Candidate : Type 0 where
  pub index : ℕ
  pub avail : ℕ

-- The first loop of `NextBlock`, from index `i` on: the incomplete pieces that the peer has.
unfoldable pub gather : ℕ → List Piece → List Bool → List ℕ → List Candidate
gather i [] bits avail = []
gather i (p ∷ ps) bits avail =
    let rest = gather (i + 1) ps bits avail in
    if not p.is_done && get_or bits i false
    then record { index = i; avail = get_or avail i 0 } ∷ rest
    else rest

unfoldable pub any_block : (Block → Bool) → List Block → Bool
any_block test [] = false
any_block test (b ∷ bs) = test b || any_block test bs

-- `hasUnrequested`, which the same loop computes
unfoldable pub has_unrequested : ℕ → List Piece → List Bool → Bool
unfolding any_block
has_unrequested i [] bits = false
has_unrequested i (p ∷ ps) bits =
    (not p.is_done
      && (get_or bits i false && any_block (λ b. state_eq b.state unrequested) p.blocks))
    || has_unrequested (i + 1) ps bits

-- The inner loop of both modes: the first block that passes the test, changed, in its place.
pub record Taken (A : Type 0) : Type 0 where
  pub items : List A
  pub block : Block

unfoldable pub take_block : (Block → Bool) → (Block → Block) → List Block → Option (Taken Block)
take_block test mark [] = none
take_block test mark (b ∷ bs) =
    let rest = take_block test mark bs in
    if test b
    then some (record { items = mark b ∷ bs; block = mark b })
    else elim rest [ none ↦ none | some t ↦ some (record t { items = b ∷ t.items }) ]

-- The outer loop of both modes, over the candidates in order.
unfoldable pub take_from :
    (Block → Bool) → (Block → Block) → List Candidate → List Piece → Option (Taken Piece)
unfolding take_block
take_from test mark [] ps = none
take_from test mark (c ∷ cs) ps =
    let rest = take_from test mark cs ps in
    elim (get_elem? ps c.index) [
      | none ↦ rest
      | some p ↦ elim (take_block test mark p.blocks) [
        | none ↦ rest
        | some t ↦
            some
              (record { items = set ps c.index (record p { blocks = t.items }); block = t.block })
      ]
    ]

abbrev pub rarer : Candidate → Candidate → Bool
rarer c d = ltb c.avail d.avail

abbrev pub request_for : Bytes → ℕ → Block → Block
request_for addr now b = record b { state = pending; peer = addr; sent = now }

abbrev pub resend : ℕ → Block → Block
resend now b = record b { sent = now }

-- Normal mode: the first unrequested block of the candidates.
unfoldable pub pick_normal : PiecePicker → Bytes → ℕ → List Candidate → PiecePicker × Option Block
unfolding take_from
pick_normal p addr now cs =
    elim (take_from (λ b. state_eq b.state unrequested) (request_for addr now) cs p.pieces) [
      | none ↦ (p, none)
      | some t ↦ (record p { pieces = t.items; pending_count = p.pending_count + 1 }, some t.block)
    ]

-- End-game mode: the first pending block of the candidates, requested once more.
unfoldable pub pick_again : PiecePicker → ℕ → List Candidate → PiecePicker × Option Block
unfolding take_from
pick_again p now cs = elim (take_from (λ b. state_eq b.state pending) (resend now) cs p.pieces) [
  | none ↦ (p, none)
  | some t ↦ (record p { pieces = t.items }, some t.block)
]

-- The choice, by `p.endGame`.
unfoldable pub pick : Bool → PiecePicker → Bytes → ℕ → List Candidate → PiecePicker × Option Block
unfolding pick_normal pick_again
pick true p addr now cs = pick_again p now cs
pick false p addr now cs = pick_normal p addr now cs

-- Whether this call turns end-game mode on: none of the peer's incomplete pieces has an unrequested
-- block, and blocks are missing.
unfoldable pub starts_end_game : PiecePicker → List Bool → Bool
unfolding has_unrequested
starts_end_game p bits =
    not (has_unrequested 0 p.pieces bits) && ltb p.completed_count p.total_blocks

-- The second half of `NextBlock`, over the candidates.
unfoldable pub choose :
    Sorter → PiecePicker → Bytes → ℕ → List Bool → List Candidate → PiecePicker × Option Block
unfolding pick starts_end_game
choose sorter p addr now bits [] = (p, none)
choose sorter p addr now bits (c ∷ cs) =
    let q : PiecePicker = record p { end_game = starts_end_game p bits || p.end_game } in
    pick q.end_game q addr now (sorter.sort Candidate rarer (c ∷ cs))

-- `NextBlock`; `none` stands for `Block{}, false`.
unfoldable pub next_block : Sorter → PiecePicker → Bytes → ℕ → PiecePicker × Option Block
unfolding choose gather
next_block sorter p addr now = elim (lookup addr p.peer_pieces) [
  | none ↦ (p, none)
  | some bits ↦ choose sorter p addr now bits (gather 0 p.pieces bits p.availability)
]
