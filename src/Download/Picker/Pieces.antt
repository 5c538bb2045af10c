-- ===== src/Download/Picker/Pieces.antt =====
-- The number of pieces of `NewPiecePicker` and `File`, where its sum fits into `int` and where it wraps.
use bittorrent_client_go.Base.{
  int_bound, ◌⊎◌, ◌≤◌, leb, ltb, inl, inr, Bool-cases, ◌≡◌, refl, ◌+◌, ◌-◌, ◌/◌, ◌<◌, ℕ, arith,
  true, false,
}
use bittorrent_client_go.Download.Picker.{piece_count}

pub piece_count-fits :
    (total normal : ℕ)
    → total + normal - 1 < int_bound
    → piece_count total normal ≡ (total + normal - 1) / normal
unfolding piece_count
piece_count-fits total normal h =
    let fits : leb int_bound (total + normal - 1) ≡ false = ground arith in rw fits refl

pub piece_count-wraps :
    (total normal : ℕ) → int_bound ≤ total + normal - 1 → piece_count total normal ≡ 0
unfolding piece_count
piece_count-wraps total normal h =
    let wraps : leb int_bound (total + normal - 1) ≡ true = ground arith in rw wraps refl

-- Either the count is the exact one, or it is zero.
pub piece_count-cases :
    (total normal : ℕ)
    → (piece_count total normal ≡ (total + normal - 1) / normal) ⊎ (piece_count total normal ≡ 0)
piece_count-cases total normal = elim (Bool-cases (ltb (total + normal - 1) int_bound)) [
  | inl fits ↦ inl (piece_count-fits total normal (ground arith))
  | inr wraps ↦ inr (piece_count-wraps total normal (ground arith))
]
