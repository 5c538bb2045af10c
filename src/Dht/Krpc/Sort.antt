-- ===== src/Dht/Krpc/Sort.antt =====
-- `sortStrings`: the result is in order, holds the same strings, and a list in order is left alone.
use mathlib.Core.List.{Perm, perm_middle}
use mathlib.Core.List.Perm
use mathlib.Core.Path.{subst}
use bittorrent_client_go.Base.{
  ◌≡◌, refl, ap, ◌∙◌, append-nil, true, false, List, [], ◌∷◌, ◌++◌, Bytes, bytes_gt, Bool-cases,
  inl, inr, All, arith,
}
use bittorrent_client_go.Dht.Krpc.{sift, sort_loop, reverse_onto, sort_strings}

pub bytes_gt_irrefl : (s : Bytes) → bytes_gt s s ≡ false
unfolding bytes_gt
bytes_gt_irrefl [] = refl
bytes_gt_irrefl (x ∷ xs) = ground (arith, bytes_gt_irrefl xs)

pub bytes_gt_asymm : (s t : Bytes) → bytes_gt s t ≡ true → bytes_gt t s ≡ false
unfolding bytes_gt
bytes_gt_asymm [] t h = cc
bytes_gt_asymm (x ∷ xs) [] h = refl
bytes_gt_asymm (x ∷ xs) (y ∷ ys) h = ground (arith, bytes_gt_asymm xs ys)

-- Not greater is transitive.
pub bytes_le_trans :
    (s t u : Bytes) → bytes_gt s t ≡ false → bytes_gt t u ≡ false → bytes_gt s u ≡ false
unfolding bytes_gt
bytes_le_trans [] t u h k = refl
bytes_le_trans (x ∷ xs) [] u h k = cc
bytes_le_trans (x ∷ xs) (y ∷ ys) [] h k = cc
bytes_le_trans (x ∷ xs) (y ∷ ys) (z ∷ zs) h k = ground (arith, bytes_le_trans xs ys zs)

-- In falling order: nothing is greater than what stands before it.
abbrev pub IsFalling : List Bytes → Type 0
IsFalling [] = Unit
IsFalling (x ∷ xs) = All (λ y. bytes_gt y x ≡ false) xs × IsFalling xs

-- In rising order.
abbrev pub IsRising : List Bytes → Type 0
IsRising [] = Unit
IsRising (x ∷ xs) = All (λ y. bytes_gt x y ≡ false) xs × IsRising xs

sift-All : (P : Bytes → Type 0) (k : Bytes) (ps : List Bytes) → P k → All P ps → All P (sift k ps)
unfolding sift
sift-All P k [] h a = (h, tt)
sift-All P k (p ∷ ps) h a = elim (Bool-cases (bytes_gt p k)) [
  | inl gt ↦ rw gt (a.0, sift-All P k ps h a.1)
  | inr le ↦ rw le (h, a)
]

All-le_trans :
    (x y : Bytes) (ps : List Bytes)
    → bytes_gt y x ≡ false
    → All (λ z. bytes_gt z y ≡ false) ps
    → All (λ z. bytes_gt z x ≡ false) ps
All-le_trans x y [] h a = tt
All-le_trans x y (z ∷ ps) h a = (bytes_le_trans z y x a.0 h, All-le_trans x y ps h a.1)

sift-IsFalling : (k : Bytes) (ps : List Bytes) → IsFalling ps → IsFalling (sift k ps)
unfolding sift
sift-IsFalling k [] h = (tt, tt)
sift-IsFalling k (p ∷ ps) h = elim (Bool-cases (bytes_gt p k)) [
  | inl gt ↦ rw gt (sift-All _ k ps (bytes_gt_asymm p k gt) h.0, sift-IsFalling k ps h.1)
  | inr le ↦ rw le ((le, All-le_trans k p ps le h.0), h)
]

sort_loop-IsFalling : (front s : List Bytes) → IsFalling front → IsFalling (sort_loop front s)
unfolding sort_loop
sort_loop-IsFalling front [] h = h
sort_loop-IsFalling front (k ∷ ks) h =
    sort_loop-IsFalling (sift k front) ks (sift-IsFalling k front h)

-- Every string of the second list is at most every string of the first.
abbrev Precedes : List Bytes → List Bytes → Type 0
Precedes out xs = All (λ x. All (λ y. bytes_gt x y ≡ false) out) xs

Precedes-cons :
    (x : Bytes) (out xs : List Bytes)
    → Precedes out xs
    → All (λ y. bytes_gt y x ≡ false) xs
    → Precedes (x ∷ out) xs
Precedes-cons x out [] h a = tt
Precedes-cons x out (y ∷ xs) h a = ((a.0, h.0), Precedes-cons x out xs h.1 a.1)

reverse_onto-IsRising :
    (out xs : List Bytes)
    → IsRising out
    → IsFalling xs
    → Precedes out xs
    → IsRising (reverse_onto out xs)
unfolding reverse_onto
reverse_onto-IsRising out [] r f p = r
reverse_onto-IsRising out (x ∷ xs) r f p =
    reverse_onto-IsRising (x ∷ out) xs (p.0, r) f.1 (Precedes-cons x out xs p.1 f.0)

Precedes-nil : (xs : List Bytes) → Precedes [] xs
Precedes-nil [] = tt
Precedes-nil (x ∷ xs) = (tt, Precedes-nil xs)

sift-perm : (k : Bytes) (ps : List Bytes) → Perm (sift k ps) (k ∷ ps)
unfolding sift
sift-perm k [] = Perm.refl _
sift-perm k (p ∷ ps) = elim (Bool-cases (bytes_gt p k)) [
  | inl gt ↦ rw gt (Perm.trans (Perm.cons p (sift-perm k ps)) (Perm.swap k p ps))
  | inr le ↦ rw le (Perm.refl _)
]

sort_loop-perm : (front s : List Bytes) → Perm (sort_loop front s) (s ++ front)
unfolding sort_loop
sort_loop-perm front [] = Perm.refl _
sort_loop-perm front (k ∷ ks) =
    Perm.trans (sort_loop-perm (sift k front) ks)
      (Perm.trans (Perm.append (Perm.refl ks) (sift-perm k front)) (perm_middle ks front))

reverse_onto-perm : (out xs : List Bytes) → Perm (reverse_onto out xs) (xs ++ out)
unfolding reverse_onto
reverse_onto-perm out [] = Perm.refl _
reverse_onto-perm out (x ∷ xs) = Perm.trans (reverse_onto-perm (x ∷ out) xs) (perm_middle xs out)

-- The keys come out in rising order, and none is lost, added or repeated.
pub sort_strings_lem : (s : List Bytes) → IsRising (sort_strings s) × Perm (sort_strings s) s
unfolding sort_strings
sort_strings_lem s = (
  reverse_onto-IsRising [] (sort_loop [] s) tt (sort_loop-IsFalling [] s tt) (Precedes-nil _),
  Perm.trans (reverse_onto-perm [] (sort_loop [] s))
      (rw append-nil (subst (λ t. Perm (sort_loop [] s) t) (append-nil s) (sort_loop-perm [] s))),
)

-- The next string to insert is not smaller than the last one inserted.
abbrev Fits : List Bytes → Bytes → Type 0
Fits [] k = Unit
Fits (p ∷ ps) k = bytes_gt p k ≡ false

sort_loop-rising :
    (front : List Bytes) (k : Bytes) (ks : List Bytes)
    → Fits front k
    → IsRising (k ∷ ks)
    → sort_loop front (k ∷ ks) ≡ reverse_onto front (k ∷ ks)
unfolding sort_loop reverse_onto
sort_loop-rising [] k [] f r = refl
sort_loop-rising (p ∷ ps) k [] f r = rw f
sort_loop-rising [] k (j ∷ ks) f r = sort_loop-rising (k ∷ []) j ks r.0.0 r.1
sort_loop-rising (p ∷ ps) k (j ∷ ks) f r = rw f (sort_loop-rising (k ∷ p ∷ ps) j ks r.0.0 r.1)

reverse_onto-reverse_onto :
    (out a xs : List Bytes) → reverse_onto out (reverse_onto a xs) ≡ reverse_onto (xs ++ out) a
unfolding reverse_onto
reverse_onto-reverse_onto out a [] = refl
reverse_onto-reverse_onto out a (x ∷ xs) = reverse_onto-reverse_onto out (x ∷ a) xs

-- Strings that are in order already stay as they are.
pub sort_strings-rising : (s : List Bytes) → IsRising s → sort_strings s ≡ s
unfolding sort_strings
sort_strings-rising [] r = refl
sort_strings-rising (k ∷ ks) r =
    ap (reverse_onto []) (sort_loop-rising [] k ks tt r)
    ∙ reverse_onto-reverse_onto [] [] (k ∷ ks)
    ∙ append-nil (k ∷ ks)
