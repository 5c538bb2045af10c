-- ===== src/Seeder/Storage/Pieces.antt =====
-- What `LoadPieces` returns.
use native.Mathlib.Nat.{div-add-mod', mod-lt}
use mathlib.Core.Path.{subst}
use bittorrent_client_go.Base.{
  pos, ℕ, zero, suc, ◌+◌, ◌-◌, ◌*◌, ◌/◌, ◌^◌, ◌≤◌, ◌<◌, ◌≡◌, refl, ap, ◌∙◌, min, Bool, true, false,
  ◌||◌, List, [], ◌∷◌, ◌++◌, Bytes, bytes_eq, bytes_eq_iff, ltb, leb, ◌==◌, if◌then◌else◌, length,
  length-drop, take-append-drop, take-min, drop_past, drop-drop, sym, take, drop, Result, ok, err,
  panic, ◌>>=◌, bind-eq-ok, arith,
}
use bittorrent_client_go.Seeder.Storage.{LoadError, hash_mismatch, slice, split_pieces, all_pieces}

slice-ok :
    (s : Bytes) (from to : ℕ) (piece : Bytes)
    → slice s from to ≡ ok piece
    → take (to - from) (drop from s) ≡ piece
unfolding slice
slice-ok s from to piece h =
    pick_ok (ltb (length s) to || ltb to from) (take (to - from) (drop from s)) h
  where
    pick_ok :
        (b : Bool) (part : Bytes)
        → (if◌then◌else◌ {A = Result LoadError Bytes} b panic (ok part)) ≡ ok piece
        → part ≡ piece
    pick_ok true part h = cc
    pick_ok false part h = cc

checked-ok :
    (b : Bool) (piece : Bytes) (rest : Result LoadError (List Bytes)) (ps : List Bytes)
    → (if b then (rest >>= λ pieces. ok (piece ∷ pieces)) else err hash_mismatch) ≡ ok ps
    → (b ≡ true) × ((qs : List Bytes) × (rest ≡ ok qs) × (piece ∷ qs ≡ ps))
checked-ok true piece (ok qs) ps h = (refl, (qs, refl, cc))
checked-ok true piece (err e) ps h = cc
checked-ok true piece panic ps h = cc
checked-ok false piece rest ps h = cc

-- The number of pieces is the quotient rounded up.
rounded_up : (len n : ℕ) → 0 < n → (len ≤ (len + n - 1) / n * n) × ((len + n - 1) / n * n < len + n)
rounded_up len n h = (
  omega (arith, div-add-mod' (len + n - 1) n, mod-lt (len + n - 1) h),
  omega (arith, div-add-mod' (len + n - 1) n, mod-lt (len + n - 1) h),
)

unfoldable pub joined : List Bytes → Bytes
joined [] = []
joined (p ∷ ps) = p ++ joined ps

module _ (sha1 : Bytes → Bytes) where
  -- Each piece has the hash that stands at its place.
  abbrev pub HaveHashes : Bytes → ℕ → List Bytes → Type 0
  HaveHashes hashes i [] = Unit
  HaveHashes hashes i (p ∷ ps) =
      (sha1 p ≡ take 20 (drop (i * 20) hashes)) × HaveHashes hashes (i + 1) ps

  first_piece :
      (start n : ℕ) (raw piece : Bytes)
      → start ≤ length raw
      → take (min (start + n) (length raw) - start) (drop start raw) ≡ piece
      → piece ++ drop (start + n) raw ≡ drop start raw
  first_piece start n raw piece h e =
      let size = length-drop start raw in
      let cut : min (start + n) (length raw) - start ≡ min n (length (drop start raw)) =
        omega arith in
      let whole : take n (drop start raw) ≡ piece =
        sym (take-min n (drop start raw)) ∙ ap (λ k. take k (drop start raw)) (sym cut) ∙ e in
      rw (← whole, ← drop-drop start n raw) (take-append-drop n (drop start raw))

  -- Pieces that `split_pieces` returns for the rest of the data make up that rest, and have the hashes
  -- that the torrent gives for them.
  pub split_pieces_lem :
      (r i n : ℕ) (hashes raw : Bytes) (ps : List Bytes)
      → 0 < n
      → length raw ≤ (i + r) * n
      → (i + r) * n < length raw + n
      → split_pieces sha1 r i n hashes raw ≡ ok ps
      → (joined ps ≡ drop (i * n) raw) × HaveHashes hashes i ps
  unfolding split_pieces joined
  split_pieces_lem zero i n hashes raw ps h le lt e =
      let same : i + 0 ≡ i = omega arith in
      let past : length raw ≤ i * n = subst (λ k. length raw ≤ k * n) same le in
      let done : [] ≡ ps = cc in rw (← done) (sym (drop_past (i * n) raw past), tt)
  split_pieces_lem (suc r) i n hashes raw ps h le lt e =
      let (piece, cut, more) = bind-eq-ok (slice raw (i * n) (min (i * n + n) (length raw))) _ e in
      let (hash, expected, more') = bind-eq-ok (slice hashes (i * 20) ((i + 1) * 20)) _ more in
      let (same_hash, (qs, rest, all)) = checked-ok (bytes_eq (sha1 piece) hash) piece _ ps more' in
      let next : i + 1 + r ≡ i + suc r = omega arith in
      let ih =
        split_pieces_lem r (i + 1) n hashes raw qs h (subst (λ k. length raw ≤ k * n) (sym next) le)
          (subst (λ k. k * n < length raw + n) (sym next) lt) rest in
      let piece_cut = slice-ok raw (i * n) _ piece cut in
      let hash_cut = slice-ok hashes (i * 20) _ hash expected in
      let parts : (i + 1) * n ≡ i * n + n = omega arith in
      let before : i * n ≤ length raw = omega arith in
      let here = first_piece (i * n) n raw piece before piece_cut in
      let same : (i + 1) * 20 - i * 20 ≡ 20 = omega arith in
      let hashed : sha1 piece ≡ hash = (bytes_eq_iff (sha1 piece) hash).0 same_hash in
      rw (← all) (
        rw (ih.0, parts) here,
        (hashed ∙ sym hash_cut ∙ ap (λ k. take k (drop (i * 20) hashes)) same, ih.1),
      )

  -- For a torrent with a positive piece length that is small enough for the sums in an `int`, the
  -- pieces that `LoadPieces` makes of the data are, put together, the data, and each piece has the
  -- hash that the torrent gives for it, if it returns them.
  pub all_pieces_lem :
      (n : ℕ) (hashes raw : Bytes) (ps : List Bytes)
      → 0 < n
      → length raw + n ≤ 2 ^ 63
      → all_pieces sha1 (pos n) hashes raw ≡ ok ps
      → (joined ps ≡ raw) × HaveHashes hashes 0 ps
  unfolding all_pieces
  all_pieces_lem n hashes raw ps h small e =
      let positive : (n == 0) ≡ false = ground arith in
      let no_wrap : leb (2 ^ 63) (length raw + n - 1) ≡ false = ground arith in
      let split : split_pieces sha1 ((length raw + n - 1) / n) 0 n hashes raw ≡ ok ps =
        rw (positive, no_wrap) at e in
      let (low, high) = rounded_up (length raw) n h in
      let start : 0 * n ≡ 0 = omega arith in
      let count : 0 + (length raw + n - 1) / n ≡ (length raw + n - 1) / n = omega arith in
      let found =
        split_pieces_lem ((length raw + n - 1) / n) 0 n hashes raw ps h (rw count low)
          (rw count high) split in
      (found.0 ∙ ap (λ k. drop k raw) start, found.1)
