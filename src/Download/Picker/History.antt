-- ===== src/Download/Picker/History.antt =====
-- The counters of the picker are right after any history of calls of its methods.
use bittorrent_client_go.Base.{
  ℕ, ◌+◌, ◌≡◌, refl, sym, ◌∙◌, Bool, true, false, not, ◌&&◌, Option, none, some, List, [], ◌∷◌,
  Bytes, ltb, Bool-cases, inl, inr, length, get_or, ◌||◌, arith, Option-cases, lookup,
}
use bittorrent_client_go.Base.Sorter.{Sorter}
use bittorrent_client_go.Download.Picker.{
  BlockState, unrequested, pending, completed, Block, Piece, PiecePicker, state_eq, new_picker,
  register_peer, unregister_peer,
}
use bittorrent_client_go.Download.Picker.Choose.{
  update_peer_bitfield, update_peer_have, next_block, choose, pick_normal, pick_again, take_from,
  Candidate, Taken, request_for, resend,
}
use bittorrent_client_go.Download.Picker.Settle.{mark_completed, mark_failed, get_stalled_requests}
use bittorrent_client_go.Download.Picker.Count.{in_state, one_if, count_in, IsFlagged}
use bittorrent_client_go.Download.Picker.Takes.{
  OnSome, Takes-count, Takes-length, Takes-open, TakesFrom, take_from-TakesFrom, state_eq→eq,
}
use bittorrent_client_go.Download.Picker.Counted.{
  IsCounted, IsCounted-same, set_blocks-IsCounted, All-get, mark_completed-IsCounted,
  mark_failed-IsCounted, get_stalled_requests-IsCounted, unregister_peer-IsCounted,
}
use bittorrent_client_go.Download.Picker.Fresh.{new_picker-IsCounted}
use bittorrent_client_go.Download.Picker.Choose.{pick, starts_end_game}

-- A choice from one list of pieces keeps the counters right, with the changes of the two states.
TakesFrom-IsCounted :
    (p : PiecePicker) (s s' : BlockState) (mark : Block → Block) (qs : List Piece) (c : Block)
    (n : ℕ)
    → state_eq s completed ≡ false
    → state_eq s' completed ≡ false
    → ((b : Block) → in_state s b ≡ true → (mark b).state ≡ s')
    → n + one_if (state_eq s pending) ≡ p.pending_count + one_if (state_eq s' pending)
    → IsCounted p
    → TakesFrom (in_state s) mark p.pieces qs c
    → IsCounted (record p { pieces = qs; pending_count = n })
TakesFrom-IsCounted p s s' mark qs c n sc sc' g h v t =
    let x = t.piece in
    let (before, after) = Takes-open sc sc' g t.takes in
    let w =
      set_blocks-IsCounted p t.at x t.blocks x.is_done n p.completed_count v t.found
        (All-get IsFlagged p.pieces t.at x v.flags t.found ∙ before ∙ sym after)
        (Takes-length t.takes) (omega (arith, h, Takes-count pending s s' mark g t.takes))
        (let k = Takes-count completed s s' mark g t.takes in
          let k' : count_in completed t.blocks + one_if false
              ≡ count_in completed x.blocks + one_if false =
            rw (sc, sc') at k in
          omega arith) in
    rw t.result w

pick_normal-IsCounted :
    (p : PiecePicker) (addr : Bytes) (now : ℕ) (cs : List Candidate)
    → IsCounted p
    → IsCounted (pick_normal p addr now cs).0
unfolding pick_normal
pick_normal-IsCounted p addr now cs v =
    go (take_from (in_state unrequested) (request_for addr now) cs p.pieces)
      (take_from-TakesFrom (in_state unrequested) (request_for addr now) cs p.pieces) refl
  where
    go :
        (o : Option (Taken Piece))
        → OnSome
            (λ r. TakesFrom (in_state unrequested) (request_for addr now) p.pieces r.items r.block)
            o
        → take_from (in_state unrequested) (request_for addr now) cs p.pieces ≡ o
        → IsCounted (pick_normal p addr now cs).0
    go none t e = rw (e, pick_normal) v
    go (some r) t e =
        rw (e, pick_normal)
          (TakesFrom-IsCounted p unrequested pending (request_for addr now) r.items r.block
            (p.pending_count + 1) refl refl (λ b h. refl) (omega arith) v t)

pick_again-IsCounted :
    (p : PiecePicker) (now : ℕ) (cs : List Candidate)
    → IsCounted p
    → IsCounted (pick_again p now cs).0
unfolding pick_again
pick_again-IsCounted p now cs v =
    go (take_from (in_state pending) (resend now) cs p.pieces)
      (take_from-TakesFrom (in_state pending) (resend now) cs p.pieces) refl
  where
    go :
        (o : Option (Taken Piece))
        → OnSome (λ r. TakesFrom (in_state pending) (resend now) p.pieces r.items r.block) o
        → take_from (in_state pending) (resend now) cs p.pieces ≡ o
        → IsCounted (pick_again p now cs).0
    go none t e = rw (e, pick_again) v
    go (some r) t e =
        rw (e, pick_again)
          (TakesFrom-IsCounted p pending pending (resend now) r.items r.block p.pending_count refl
            refl (λ b h. state_eq→eq b.state pending h) refl v t)

pick-IsCounted :
    (end_game : Bool) (p : PiecePicker) (addr : Bytes) (now : ℕ) (cs : List Candidate)
    → IsCounted p
    → IsCounted (pick end_game p addr now cs).0
unfolding pick
pick-IsCounted true p addr now cs v = pick_again-IsCounted p now cs v
pick-IsCounted false p addr now cs v = pick_normal-IsCounted p addr now cs v

choose-IsCounted :
    (sorter : Sorter) (p : PiecePicker) (addr : Bytes) (now : ℕ) (bits : List Bool)
    (cs : List Candidate)
    → IsCounted p
    → IsCounted (choose sorter p addr now bits cs).0
unfolding choose
choose-IsCounted sorter p addr now bits [] v = v
choose-IsCounted sorter p addr now bits (c ∷ cs) v =
    let q : PiecePicker = record p { end_game = starts_end_game p bits || p.end_game } in
    pick-IsCounted q.end_game q addr now _ (IsCounted-same p q v refl refl refl refl)

next_block-IsCounted :
    (sorter : Sorter) (p : PiecePicker) (addr : Bytes) (now : ℕ)
    → IsCounted p
    → IsCounted (next_block sorter p addr now).0
unfolding next_block
next_block-IsCounted sorter p addr now v = elim (Option-cases (lookup addr p.peer_pieces)) [
  | inl e ↦ rw (e, next_block) v
  | inr (bits, e) ↦ rw (e, next_block) (choose-IsCounted sorter p addr now bits _ v)
]

update_peer_bitfield-IsCounted :
    (p : PiecePicker) (addr bitfield : Bytes)
    → IsCounted p
    → IsCounted (update_peer_bitfield p addr bitfield)
unfolding update_peer_bitfield
update_peer_bitfield-IsCounted p addr bitfield v = elim (Option-cases (lookup addr p.peer_pieces)) [
  | inl e ↦ rw (e, update_peer_bitfield) v
  | inr (bits, e) ↦ rw (e, update_peer_bitfield) (IsCounted-same p _ v refl refl refl refl)
]

update_peer_have-IsCounted :
    (p : PiecePicker) (addr : Bytes) (i : ℕ) → IsCounted p → IsCounted (update_peer_have p addr i)
unfolding update_peer_have
update_peer_have-IsCounted p addr i v = elim (Option-cases (lookup addr p.peer_pieces)) [
  | inl e ↦ rw (e, update_peer_have) v
  | inr (bits, e) ↦
      rw (e, update_peer_have)
        (elim (Bool-cases (ltb i (length bits) && not (get_or bits i false))) [
          | inl h ↦ rw h (IsCounted-same p _ v refl refl refl refl)
          | inr h ↦ rw h v
        ])
]

-- One call of a method that changes the picker.
pub data Call : Type 0 where
  registers unregisters : Bytes → Call
  has_pieces : Bytes → Bytes → Call
  has_piece : Bytes → ℕ → Call
  asks : Bytes → ℕ → Call
  completes : ℕ → ℕ → Bytes → Call
  fails : ℕ → ℕ → Call
  reclaims : ℕ → ℕ → Call

unfoldable pub step : Sorter → PiecePicker → Call → PiecePicker
step sorter p (registers addr) = register_peer p addr
step sorter p (unregisters addr) = unregister_peer p addr
step sorter p (has_pieces addr bitfield) = update_peer_bitfield p addr bitfield
step sorter p (has_piece addr i) = update_peer_have p addr i
step sorter p (asks addr now) = (next_block sorter p addr now).0
step sorter p (completes i begin addr) = (mark_completed p i begin addr).0
step sorter p (fails i begin) = mark_failed p i begin
step sorter p (reclaims now timeout) = (get_stalled_requests p now timeout).0

unfoldable pub run : Sorter → PiecePicker → List Call → PiecePicker
run sorter p [] = p
run sorter p (c ∷ cs) = run sorter (step sorter p c) cs

step-IsCounted :
    (sorter : Sorter) (p : PiecePicker) (c : Call) → IsCounted p → IsCounted (step sorter p c)
unfolding step register_peer
step-IsCounted sorter p (registers addr) v = IsCounted-same p _ v refl refl refl refl
step-IsCounted sorter p (unregisters addr) v = unregister_peer-IsCounted p addr v
step-IsCounted sorter p (has_pieces addr bitfield) v =
    update_peer_bitfield-IsCounted p addr bitfield v
step-IsCounted sorter p (has_piece addr i) v = update_peer_have-IsCounted p addr i v
step-IsCounted sorter p (asks addr now) v = next_block-IsCounted sorter p addr now v
step-IsCounted sorter p (completes i begin addr) v = mark_completed-IsCounted p i begin addr v
step-IsCounted sorter p (fails i begin) v = mark_failed-IsCounted p i begin v
step-IsCounted sorter p (reclaims now timeout) v = get_stalled_requests-IsCounted p now timeout v

run-IsCounted :
    (sorter : Sorter) (p : PiecePicker) (cs : List Call) → IsCounted p → IsCounted (run sorter p cs)
unfolding run
run-IsCounted sorter p [] v = v
run-IsCounted sorter p (c ∷ cs) v =
    run-IsCounted sorter (step sorter p c) cs (step-IsCounted sorter p c v)

-- After any calls on a new picker, whatever sort the library makes: `pendingCount` and `completed`
-- are the numbers of its pending and completed blocks, `totalBlocks` is the number of its blocks,
-- and a piece is flagged as completed exactly if all its blocks are.
pub run-new_picker :
    (sorter : Sorter) (total normal : ℕ) (cs : List Call) {p : PiecePicker}
    → new_picker total normal ≡ some p
    → IsCounted (run sorter p cs)
run-new_picker sorter total normal cs {p} e =
    run-IsCounted sorter p cs (new_picker-IsCounted total normal e)
