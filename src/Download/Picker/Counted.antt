-- ===== src/Download/Picker/Counted.antt =====
-- The counters of the picker count what its pieces hold, after any calls of its methods.
use bittorrent_client_go.Base.{
  ℕ, zero, suc, ◌+◌, ◌-◌, ◌≤◌, ◌≡◌, refl, sym, ◌∙◌, Bool, true, false, Option, none, some, List, [],
  ◌∷◌, Bytes, inl, inr, length, get_elem?, set, All, arith, Option-cases,
}
use bittorrent_client_go.Download.Picker.{
  BlockState, unrequested, pending, completed, Block, Piece, PiecePicker, unregister_peer,
  requested_from, reclaim_pieces, put_back,
}
use bittorrent_client_go.Download.Picker.Settle.{
  all_completed, mark_completed, complete, settle, fail_block, mark_failed, get_stalled_requests,
  state_at, change_at, completed_by,
}
use bittorrent_client_go.Download.Picker.Count.{
  count_in, sum_of, count_all, blocks_total, sum_of-set, All-set, IsFlagged, change_at-count,
  length-change_at, reclaim_pieces-count,
}
use bittorrent_client_go.Download.Picker.Takes.{state_eq→eq}

pub record IsCounted (p : PiecePicker) : Type 0 where
  pub pending_is : p.pending_count ≡ count_all pending p.pieces
  pub completed_is : p.completed_count ≡ count_all completed p.pieces
  pub total_is : p.total_blocks ≡ blocks_total p.pieces
  pub flags : All IsFlagged p.pieces

pub All-get :
    (P : Piece → Type 0) (ps : List Piece) (i : ℕ) (p : Piece)
    → All P ps
    → get_elem? ps i ≡ some p
    → P p
All-get P [] i p a e = cc
All-get P (q ∷ ps) zero p a e = let s : q ≡ p = ground arith in rw s at a.0
All-get P (q ∷ ps) (suc i) p a e = All-get P ps i p a.1 e

pub count_in-le-all :
    (t : BlockState) (ps : List Piece) (i : ℕ) (p : Piece)
    → get_elem? ps i ≡ some p
    → count_in t p.blocks ≤ count_all t ps
unfolding sum_of
count_in-le-all t [] i p e = cc
count_in-le-all t (q ∷ ps) zero p e = let s : q ≡ p = ground arith in rw s (omega arith)
count_in-le-all t (q ∷ ps) (suc i) p e = omega (arith, count_in-le-all t ps i p e)

-- One piece with other blocks.
pub set_blocks-IsCounted :
    (p : PiecePicker) (i : ℕ) (x : Piece) (bs : List Block) (done : Bool) (n m : ℕ)
    → IsCounted p
    → get_elem? p.pieces i ≡ some x
    → done ≡ all_completed bs
    → length bs ≡ length x.blocks
    → n + count_in pending x.blocks ≡ p.pending_count + count_in pending bs
    → m + count_in completed x.blocks ≡ p.completed_count + count_in completed bs
    → IsCounted (record p {
      pieces = set p.pieces i (record x { blocks = bs; is_done = done });
      pending_count = n;
      completed_count = m;
    })
set_blocks-IsCounted p i x bs done n m v e d l hn hm =
    let y : Piece = record x { blocks = bs; is_done = done } in
    record {
      pending_is =
          omega (arith, v.pending_is, sum_of-set (λ q. count_in pending q.blocks) p.pieces i x y e);
      completed_is =
          omega
            (arith, v.completed_is, sum_of-set (λ q. count_in completed q.blocks) p.pieces i x y e);
      total_is = omega (arith, v.total_is, sum_of-set (λ q. length q.blocks) p.pieces i x y e);
      flags = All-set IsFlagged p.pieces i y v.flags d;
    }

pub reclaim-IsCounted :
    (p : PiecePicker) (test : Block → Bool)
    → ((b : Block) → test b ≡ true → b.state ≡ pending)
    → IsCounted p
    → let r = reclaim_pieces test p.pieces p.pending_count [] in
      IsCounted (record p { pieces = r.items; pending_count = r.count })
reclaim-IsCounted p test imp v =
    let (c, same, flags) =
      reclaim_pieces-count test p.pieces p.pending_count [] imp (omega (arith, v.pending_is))
        v.flags in
    record {
      pending_is = omega (arith, v.pending_is, c);
      completed_is = omega (arith, v.completed_is, same.completed_same);
      total_is = omega (arith, v.total_is, same.length_same);
      flags = flags;
    }

complete-IsCounted :
    (p : PiecePicker) (i : ℕ) (x : Piece) (begin : ℕ) (addr : Bytes) (s : BlockState)
    → IsCounted p
    → get_elem? p.pieces i ≡ some x
    → state_at begin x.blocks ≡ some s
    → IsCounted (complete p i x begin addr s).0
unfolding complete
complete-IsCounted p i x begin addr completed v e h = v
complete-IsCounted p i x begin addr unrequested v e h =
    let f = completed_by addr in
    set_blocks-IsCounted p i x (change_at begin f x.blocks) _ p.pending_count
      (p.completed_count + 1) v e refl (length-change_at begin f x.blocks)
      (omega (arith, change_at-count pending unrequested completed begin f x.blocks (λ b. refl) h))
      (omega
        (arith, change_at-count completed unrequested completed begin f x.blocks (λ b. refl) h))
complete-IsCounted p i x begin addr pending v e h =
    let f = completed_by addr in
    set_blocks-IsCounted p i x (change_at begin f x.blocks) _ (p.pending_count - 1)
      (p.completed_count + 1) v e refl (length-change_at begin f x.blocks)
      (omega (
        arith,
        v.pending_is,
        count_in-le-all pending p.pieces i x e,
        change_at-count pending pending completed begin f x.blocks (λ b. refl) h,
      ))
      (omega (arith, change_at-count completed pending completed begin f x.blocks (λ b. refl) h))

settle-IsCounted :
    (p : PiecePicker) (i : ℕ) (x : Piece) (begin : ℕ) (addr : Bytes) (d : Bool)
    (o : Option BlockState)
    → IsCounted p
    → get_elem? p.pieces i ≡ some x
    → state_at begin x.blocks ≡ o
    → IsCounted (settle p i x begin addr d o).0
unfolding settle
settle-IsCounted p i x begin addr true o v e h = v
settle-IsCounted p i x begin addr false none v e h = v
settle-IsCounted p i x begin addr false (some s) v e h = complete-IsCounted p i x begin addr s v e h

pub mark_completed-IsCounted :
    (p : PiecePicker) (i begin : ℕ) (addr : Bytes)
    → IsCounted p
    → IsCounted (mark_completed p i begin addr).0
unfolding mark_completed
mark_completed-IsCounted p i begin addr v = elim (Option-cases (get_elem? p.pieces i)) [
  | inl e ↦ rw (e, mark_completed) v
  | inr (x, e) ↦ rw (e, mark_completed) (settle-IsCounted p i x begin addr x.is_done _ v e refl)
]

-- A pending block keeps the piece's flag down.
pending-open :
    (begin : ℕ) (bs : List Block)
    → state_at begin bs ≡ some pending
    → (all_completed bs ≡ false) × (all_completed (change_at begin put_back bs) ≡ false)
unfolding state_at all_completed change_at
pending-open begin [] h = cc
pending-open begin (b ∷ bs) h = ground (arith, pending-open begin bs)

fail_block-IsCounted :
    (p : PiecePicker) (i : ℕ) (x : Piece) (begin : ℕ) (o : Option BlockState)
    → IsCounted p
    → get_elem? p.pieces i ≡ some x
    → state_at begin x.blocks ≡ o
    → IsCounted (fail_block p i x begin o)
unfolding fail_block
fail_block-IsCounted p i x begin none v e h = v
fail_block-IsCounted p i x begin (some unrequested) v e h = v
fail_block-IsCounted p i x begin (some completed) v e h = v
fail_block-IsCounted p i x begin (some pending) v e h =
    let (before, after) = pending-open begin x.blocks h in
    set_blocks-IsCounted p i x (change_at begin put_back x.blocks) x.is_done (p.pending_count - 1)
      p.completed_count v e (All-get IsFlagged p.pieces i x v.flags e ∙ before ∙ sym after)
      (length-change_at begin put_back x.blocks)
      (omega (
        arith,
        v.pending_is,
        count_in-le-all pending p.pieces i x e,
        change_at-count pending pending unrequested begin put_back x.blocks (λ b. refl) h,
      ))
      (omega (
        arith,
        change_at-count completed pending unrequested begin put_back x.blocks (λ b. refl) h,
      ))

pub mark_failed-IsCounted :
    (p : PiecePicker) (i begin : ℕ) → IsCounted p → IsCounted (mark_failed p i begin)
unfolding mark_failed
mark_failed-IsCounted p i begin v = elim (Option-cases (get_elem? p.pieces i)) [
  | inl e ↦ rw (e, mark_failed) v
  | inr (x, e) ↦ rw (e, mark_failed) (fail_block-IsCounted p i x begin _ v e refl)
]

pub get_stalled_requests-IsCounted :
    (p : PiecePicker) (now timeout : ℕ)
    → IsCounted p
    → IsCounted (get_stalled_requests p now timeout).0
unfolding get_stalled_requests
get_stalled_requests-IsCounted p now timeout v =
    reclaim-IsCounted p _ (λ b h. state_eq→eq b.state pending (ground arith)) v

pub unregister_peer-IsCounted :
    (p : PiecePicker) (addr : Bytes) → IsCounted p → IsCounted (unregister_peer p addr)
unfolding unregister_peer
unregister_peer-IsCounted p addr v =
    let w =
      reclaim-IsCounted p (requested_from addr) (λ b h. state_eq→eq b.state pending (ground arith))
        v in
    record {
      pending_is = w.pending_is;
      completed_is = w.completed_is;
      total_is = w.total_is;
      flags = w.flags;
    }

-- The same pieces under the same counters.
pub IsCounted-same :
    (p q : PiecePicker)
    → IsCounted p
    → q.pieces ≡ p.pieces
    → q.pending_count ≡ p.pending_count
    → q.completed_count ≡ p.completed_count
    → q.total_blocks ≡ p.total_blocks
    → IsCounted q
IsCounted-same p q v e a b c = record {
  pending_is = rw (e, a) v.pending_is;
  completed_is = rw (e, b) v.completed_is;
  total_is = rw (e, c) v.total_is;
  flags = rw e v.flags;
}
