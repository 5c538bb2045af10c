-- ===== src/Download/Picker/Done.antt =====
-- When the picker says that the download is complete.
use bittorrent_client_go.Base.{
  ℕ, ◌≤◌, ◌≡◌, ◌↔◌, refl, sym, ◌∙◌, true, some, List, [], ◌∷◌, ==_iff, Bool-cases, inl, inr, length,
  All, arith,
}
use bittorrent_client_go.Base.Sorter.{Sorter}
use bittorrent_client_go.Download.Picker.{completed, Block, Piece, PiecePicker, new_picker}
use bittorrent_client_go.Download.Picker.Settle.{all_completed, is_completed}
use bittorrent_client_go.Download.Picker.Count.{
  in_state, count_in, sum_of, count_all, blocks_total, IsFlagged,
}
use bittorrent_client_go.Download.Picker.History.{Call, run, run-new_picker}

count_in-le : (bs : List Block) → count_in completed bs ≤ length bs
unfolding count_in
count_in-le [] = omega arith
count_in-le (b ∷ bs) = ground (arith, count_in-le bs)

all_completed-count :
    (bs : List Block) → (all_completed bs ≡ true) ↔ (count_in completed bs ≡ length bs)
unfolding count_in all_completed
all_completed-count [] = (λ h. refl, λ h. refl)
all_completed-count (b ∷ bs) = elim (Bool-cases (in_state completed b)) [
  | inl hit ↦
      let ih = all_completed-count bs in
      (λ h. rw hit (omega (arith, ih.0 (ground arith))), λ h. rw hit (ih.1 (ground arith)))
  | inr miss ↦ (λ h. ground arith, λ h. ground (arith, count_in-le bs))
]

count_all-le : (ps : List Piece) → count_all completed ps ≤ blocks_total ps
unfolding sum_of
count_all-le [] = omega arith
count_all-le (p ∷ ps) = omega (arith, count_in-le p.blocks, count_all-le ps)

-- Every piece carries the flag.
abbrev pub AllDone : List Piece → Type 0
AllDone = All (λ q. q.is_done ≡ true)

AllDone-count :
    (ps : List Piece) → All IsFlagged ps → AllDone ps ↔ (count_all completed ps ≡ blocks_total ps)
unfolding sum_of
AllDone-count [] a = (λ h. refl, λ h. tt)
AllDone-count (p ∷ ps) a =
    let ih = AllDone-count ps a.1 in
    let here = all_completed-count p.blocks in
    (
      λ h. omega (arith, ih.0 h.1, here.0 (sym a.0 ∙ h.0)),
      λ h. (
        a.0 ∙ here.1 (omega (arith, count_in-le p.blocks, count_all-le ps)),
        ih.1 (omega (arith, count_in-le p.blocks, count_all-le ps)),
      ),
    )

-- After any calls on a new picker, `IsCompleted` holds exactly if every piece is flagged as
-- completed, whether or not its bytes have been verified.
pub is_completed_iff :
    (sorter : Sorter) (total normal : ℕ) (cs : List Call) {p : PiecePicker}
    → new_picker total normal ≡ some p
    → (is_completed (run sorter p cs) ≡ true) ↔ AllDone (run sorter p cs).pieces
unfolding is_completed
is_completed_iff sorter total normal cs {p} e =
    let q = run sorter p cs in
    let v = run-new_picker sorter total normal cs e in
    let count = AllDone-count q.pieces v.flags in
    (
      λ done. count.1 (
          omega
            (arith, v.completed_is, v.total_is, (==_iff q.completed_count q.total_blocks).0 done)),
      λ all.
          (==_iff q.completed_count q.total_blocks).1
            (omega (arith, v.completed_is, v.total_is, count.0 all)),
    )
