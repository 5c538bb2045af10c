-- ===== src/Download/Picker/EndGame.antt =====
-- End-game mode, and the blocks that nobody has been asked for when it starts.
use bittorrent_client_go.Base.{
  ℕ, ◌≡◌, refl, Bool, true, false, not, ◌&&◌, ◌||◌, Option, none, some, List, [], ◌∷◌, Bool-cases,
  Option-cases, inl, inr, length, All, arith, Bytes, get_elem?, ltb, get_or, lookup,
}
use bittorrent_client_go.Base.Sorter.{Sorter}
use bittorrent_client_go.Download.Picker.{
  unrequested, pending, completed, BlockState, Piece, PiecePicker, register_peer, unregister_peer,
  requested_from,
}
use bittorrent_client_go.Download.Picker.Choose.{
  update_peer_bitfield, update_peer_have, next_block, choose, pick, pick_again, take_from,
  Candidate, Taken, resend, gather, starts_end_game,
}
use bittorrent_client_go.Download.Picker.Settle.{
  mark_failed, fail_block, get_stalled_requests, state_at, complete, settle, mark_completed,
}
use bittorrent_client_go.Download.Picker.Count.{in_state}
use bittorrent_client_go.Download.Picker.Takes.{OnSome, TakesFrom, take_from-TakesFrom}
use bittorrent_client_go.Download.Picker.History.{
  Call, registers, unregisters, has_pieces, has_piece, asks, completes, fails, reclaims, step, run,
}
use bittorrent_client_go.Download.Picker.OpenBlocks.{
  OpenAt, Takes-IsOpen, put_back-IsOpen, completed_by-IsOpen, set-OpenAt, reclaim_pieces-OpenAt,
}

-- The mode is on, and nobody has been asked for the block.
abbrev pub IsStarved : ℕ → ℕ → PiecePicker → Type 0
IsStarved i begin p = (p.end_game ≡ true) × OpenAt i begin p.pieces

-- Every call but a `MarkCompleted` of this block.
abbrev pub IsOther : ℕ → ℕ → Call → Type 0
IsOther i begin (completes j at addr) = ¬ ((j ≡ i) × (at ≡ begin))
IsOther i begin _ = Unit

module _ (i begin : ℕ) where
  pick_again-IsStarved :
      (p : PiecePicker) (now : ℕ) (cs : List Candidate)
      → IsStarved i begin p
      → IsStarved i begin (pick_again p now cs).0
  unfolding pick_again
  pick_again-IsStarved p now cs (on, h) =
      go (take_from (in_state pending) (resend now) cs p.pieces)
        (take_from-TakesFrom (in_state pending) (resend now) cs p.pieces) refl
    where
      go :
          (o : Option (Taken Piece))
          → OnSome (λ r. TakesFrom (in_state pending) (resend now) p.pieces r.items r.block) o
          → take_from (in_state pending) (resend now) cs p.pieces ≡ o
          → IsStarved i begin (pick_again p now cs).0
      go none t e = rw (e, pick_again) (on, h)
      go (some r) t e =
          let moved =
            set-OpenAt i begin p.pieces t.at t.piece (record t.piece { blocks = t.blocks }) t.found
              (λ k. Takes-IsOpen begin now t.takes) h in
          rw (e, pick_again) (on, rw t.result moved)

  pick-IsStarved :
      (mode : Bool) (p : PiecePicker) (addr : Bytes) (now : ℕ) (cs : List Candidate)
      → mode ≡ true
      → IsStarved i begin p
      → IsStarved i begin (pick mode p addr now cs).0
  unfolding pick
  pick-IsStarved true p addr now cs m h = pick_again-IsStarved p now cs h
  pick-IsStarved false p addr now cs m h = cc

  choose-IsStarved :
      (sorter : Sorter) (p : PiecePicker) (addr : Bytes) (now : ℕ) (bits : List Bool)
      (c : Candidate) (cs : List Candidate)
      → (starts_end_game p bits || p.end_game) ≡ true
      → OpenAt i begin p.pieces
      → IsStarved i begin (choose sorter p addr now bits (c ∷ cs)).0
  unfolding choose
  choose-IsStarved sorter p addr now bits c cs on h =
      let q : PiecePicker = record p { end_game = starts_end_game p bits || p.end_game } in
      pick-IsStarved q.end_game q addr now _ on (on, h)

  choose-stays :
      (sorter : Sorter) (p : PiecePicker) (addr : Bytes) (now : ℕ) (bits : List Bool)
      (cs : List Candidate)
      → IsStarved i begin p
      → IsStarved i begin (choose sorter p addr now bits cs).0
  unfolding choose
  choose-stays sorter p addr now bits [] h = h
  choose-stays sorter p addr now bits (c ∷ cs) (on, h) =
      choose-IsStarved sorter p addr now bits c cs (ground arith) h

  next_block-IsStarved :
      (sorter : Sorter) (p : PiecePicker) (addr : Bytes) (now : ℕ)
      → IsStarved i begin p
      → IsStarved i begin (next_block sorter p addr now).0
  unfolding next_block
  next_block-IsStarved sorter p addr now h = elim (Option-cases (lookup addr p.peer_pieces)) [
    | inl e ↦ rw (e, next_block) h
    | inr (bits, e) ↦ rw (e, next_block) (choose-stays sorter p addr now bits _ h)
  ]

  next_block-starts :
      (sorter : Sorter) (p : PiecePicker) (addr : Bytes) (now : ℕ) (bits : List Bool)
      (c : Candidate) (cs : List Candidate)
      → lookup addr p.peer_pieces ≡ some bits
      → gather 0 p.pieces bits p.availability ≡ c ∷ cs
      → starts_end_game p bits ≡ true
      → OpenAt i begin p.pieces
      → IsStarved i begin (next_block sorter p addr now).0
  unfolding next_block
  next_block-starts sorter p addr now bits c cs e g s h =
      let on : (starts_end_game p bits || p.end_game) ≡ true = rw s in
      rw (e, next_block, g) (choose-IsStarved sorter p addr now bits c cs on h)

  complete-IsStarved :
      (p : PiecePicker) (j : ℕ) (x : Piece) (at : ℕ) (addr : Bytes) (state : BlockState)
      → ¬ ((j ≡ i) × (at ≡ begin))
      → get_elem? p.pieces j ≡ some x
      → IsStarved i begin p
      → IsStarved i begin (complete p j x at addr state).0
  unfolding complete
  complete-IsStarved p j x at addr completed n e h = h
  complete-IsStarved p j x at addr pending n e (on, h) = (
    on,
    set-OpenAt i begin p.pieces j x _ e
        (λ k. completed_by-IsOpen begin at addr x.blocks (λ a. n (k, a))) h,
  )
  complete-IsStarved p j x at addr unrequested n e (on, h) = (
    on,
    set-OpenAt i begin p.pieces j x _ e
        (λ k. completed_by-IsOpen begin at addr x.blocks (λ a. n (k, a))) h,
  )

  settle-IsStarved :
      (p : PiecePicker) (j : ℕ) (x : Piece) (at : ℕ) (addr : Bytes) (done : Bool)
      (o : Option BlockState)
      → ¬ ((j ≡ i) × (at ≡ begin))
      → get_elem? p.pieces j ≡ some x
      → IsStarved i begin p
      → IsStarved i begin (settle p j x at addr done o).0
  unfolding settle
  settle-IsStarved p j x at addr true o n e h = h
  settle-IsStarved p j x at addr false none n e h = h
  settle-IsStarved p j x at addr false (some state) n e h =
      complete-IsStarved p j x at addr state n e h

  mark_completed-IsStarved :
      (p : PiecePicker) (j at : ℕ) (addr : Bytes)
      → ¬ ((j ≡ i) × (at ≡ begin))
      → IsStarved i begin p
      → IsStarved i begin (mark_completed p j at addr).0
  unfolding mark_completed
  mark_completed-IsStarved p j at addr n h = elim (Option-cases (get_elem? p.pieces j)) [
    | inl e ↦ rw (e, mark_completed) h
    | inr (x, e) ↦
        rw (e, mark_completed)
          (settle-IsStarved p j x at addr x.is_done (state_at at x.blocks) n e h)
  ]

  fail_block-IsStarved :
      (p : PiecePicker) (j : ℕ) (x : Piece) (at : ℕ) (o : Option BlockState)
      → get_elem? p.pieces j ≡ some x
      → IsStarved i begin p
      → IsStarved i begin (fail_block p j x at o)
  unfolding fail_block
  fail_block-IsStarved p j x at none e h = h
  fail_block-IsStarved p j x at (some unrequested) e h = h
  fail_block-IsStarved p j x at (some completed) e h = h
  fail_block-IsStarved p j x at (some pending) e (on, h) =
      (on, set-OpenAt i begin p.pieces j x _ e (λ k. put_back-IsOpen begin at x.blocks) h)

  mark_failed-IsStarved :
      (p : PiecePicker) (j at : ℕ) → IsStarved i begin p → IsStarved i begin (mark_failed p j at)
  unfolding mark_failed
  mark_failed-IsStarved p j at h = elim (Option-cases (get_elem? p.pieces j)) [
    | inl e ↦ rw (e, mark_failed) h
    | inr (x, e) ↦ rw (e, mark_failed) (fail_block-IsStarved p j x at _ e h)
  ]

  update_peer_bitfield-IsStarved :
      (p : PiecePicker) (addr bitfield : Bytes)
      → IsStarved i begin p
      → IsStarved i begin (update_peer_bitfield p addr bitfield)
  unfolding update_peer_bitfield
  update_peer_bitfield-IsStarved p addr bitfield h =
      elim (Option-cases (lookup addr p.peer_pieces)) [
        | inl e ↦ rw (e, update_peer_bitfield) h
        | inr (bits, e) ↦ rw (e, update_peer_bitfield) h
      ]

  update_peer_have-IsStarved :
      (p : PiecePicker) (addr : Bytes) (j : ℕ)
      → IsStarved i begin p
      → IsStarved i begin (update_peer_have p addr j)
  unfolding update_peer_have
  update_peer_have-IsStarved p addr j h = elim (Option-cases (lookup addr p.peer_pieces)) [
    | inl e ↦ rw (e, update_peer_have) h
    | inr (bits, e) ↦
        rw (e, update_peer_have)
          (elim (Bool-cases (ltb j (length bits) && not (get_or bits j false))) [
            | inl k ↦ rw k h
            | inr k ↦ rw k h
          ])
  ]

  step-IsStarved :
      (sorter : Sorter) (p : PiecePicker) (c : Call)
      → IsOther i begin c
      → IsStarved i begin p
      → IsStarved i begin (step sorter p c)
  unfolding step register_peer unregister_peer get_stalled_requests
  step-IsStarved sorter p (registers addr) w h = h
  step-IsStarved sorter p (unregisters addr) w (on, h) =
      (on, reclaim_pieces-OpenAt i begin (requested_from addr) p.pieces p.pending_count [] h)
  step-IsStarved sorter p (has_pieces addr bitfield) w h =
      update_peer_bitfield-IsStarved p addr bitfield h
  step-IsStarved sorter p (has_piece addr j) w h = update_peer_have-IsStarved p addr j h
  step-IsStarved sorter p (asks addr now) w h = next_block-IsStarved sorter p addr now h
  step-IsStarved sorter p (completes j at addr) w h = mark_completed-IsStarved p j at addr w h
  step-IsStarved sorter p (fails j at) w h = mark_failed-IsStarved p j at h
  step-IsStarved sorter p (reclaims now timeout) w (on, h) =
      (on, reclaim_pieces-OpenAt i begin _ p.pieces p.pending_count [] h)

  run-IsStarved :
      (sorter : Sorter) (p : PiecePicker) (cs : List Call)
      → All (IsOther i begin) cs
      → IsStarved i begin p
      → IsStarved i begin (run sorter p cs)
  unfolding run
  run-IsStarved sorter p [] w h = h
  run-IsStarved sorter p (c ∷ cs) w h =
      run-IsStarved sorter (step sorter p c) cs w.1 (step-IsStarved sorter p c w.0 h)

-- One peer that has incomplete pieces, with no unrequested block in any of them, turns end-game mode on
-- for all peers when `NextBlock` is called for it. A block that nobody has been asked for before that call is
-- still unrequested, and the mode is still on, after any later calls, whoever
-- asks, as long as none is a `MarkCompleted` of that very block.
pub end_game_starves :
    (i begin : ℕ) (sorter : Sorter) (p : PiecePicker) (addr : Bytes) (now : ℕ) (bits : List Bool)
    (c : Candidate) (cs : List Candidate) (calls : List Call)
    → lookup addr p.peer_pieces ≡ some bits
    → gather 0 p.pieces bits p.availability ≡ c ∷ cs
    → starts_end_game p bits ≡ true
    → OpenAt i begin p.pieces
    → All (IsOther i begin) calls
    → IsStarved i begin (run sorter (next_block sorter p addr now).0 calls)
end_game_starves i begin sorter p addr now bits c cs calls e g s h w =
    run-IsStarved i begin sorter (next_block sorter p addr now).0 calls w
      (next_block-starts i begin sorter p addr now bits c cs e g s h)
