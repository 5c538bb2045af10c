-- ===== src/Base/Buffers.antt =====
-- `copy` into a slice of a buffer, read back index by index.
use Prim.Native.Nat.{ℕ, zero, suc, ◌+◌, ◌-◌, ◌<◌}
use mathlib.Core.Path.{◌≡◌, refl, ap}
use mathlib.Core.Bool.{◌&&◌}
use mathlib.Core.Option.{some}
use mathlib.Core.List.{List, [], ◌∷◌}
use native.Mathlib.Omega.{arith}
use bittorrent_client_go.Base.Tests.{if◌then◌else◌, ltb, leb}
use bittorrent_client_go.Base.Lists.{length, get_elem?, take, drop}

-- `copy(dest, src)`: as many bytes as both have
unfoldable pub copy : List ℕ → List ℕ → List ℕ
copy [] src = []
copy (d ∷ dest) [] = d ∷ dest
copy (d ∷ dest) (s ∷ src) = s ∷ copy dest src

-- `copy(dest[begin:], src)`; nothing is copied behind the end.
unfoldable pub copy_at : ℕ → List ℕ → List ℕ → List ℕ
unfolding copy
copy_at zero dest src = copy dest src
copy_at (suc n) [] src = []
copy_at (suc n) (d ∷ dest) src = d ∷ copy_at n dest src

pub length-copy : (dest src : List ℕ) → length (copy dest src) ≡ length dest
unfolding copy
length-copy [] src = refl
length-copy (d ∷ dest) [] = refl
length-copy (d ∷ dest) (s ∷ src) = ap suc (length-copy dest src)

pub length-copy_at : (n : ℕ) (dest src : List ℕ) → length (copy_at n dest src) ≡ length dest
unfolding copy_at
length-copy_at zero dest src = length-copy dest src
length-copy_at (suc n) [] src = refl
length-copy_at (suc n) (d ∷ dest) src = ap suc (length-copy_at n dest src)

pub get_elem?-copy :
    (dest src : List ℕ) (i : ℕ)
    → i < length dest
    → get_elem? (copy dest src) i
      ≡ (if ltb i (length src) then get_elem? src i else get_elem? dest i)
unfolding copy
get_elem?-copy [] src i h = absurd (omega (arith, h))
get_elem?-copy (d ∷ dest) [] i h = ground arith
get_elem?-copy (d ∷ dest) (s ∷ src) zero h = ground arith
get_elem?-copy (d ∷ dest) (s ∷ src) (suc i) h = ground (arith, get_elem?-copy dest src i)

-- Of a buffer with a block copied in, the block's range has the block, and the rest is as before.
pub get_elem?-copy_at :
    (n : ℕ) (dest src : List ℕ) (i : ℕ)
    → i < length dest
    → get_elem? (copy_at n dest src) i
      ≡ (if leb n i && ltb i (n + length src) then get_elem? src (i - n) else get_elem? dest i)
unfolding copy_at
get_elem?-copy_at zero dest src i h = ground (arith, get_elem?-copy dest src i h)
get_elem?-copy_at (suc n) [] src i h = absurd (omega (arith, h))
get_elem?-copy_at (suc n) (d ∷ dest) src zero h = ground arith
get_elem?-copy_at (suc n) (d ∷ dest) src (suc i) h = ground (arith, get_elem?-copy_at n dest src i)

pub get_elem?-take :
    (n : ℕ) (xs : List ℕ) (i : ℕ) → i < n → get_elem? (take n xs) i ≡ get_elem? xs i
get_elem?-take zero xs i h = absurd (omega (arith, h))
get_elem?-take (suc n) [] i h = refl
get_elem?-take (suc n) (x ∷ xs) zero h = refl
get_elem?-take (suc n) (x ∷ xs) (suc i) h = get_elem?-take n xs i (omega arith)

pub get_elem?-drop : (n : ℕ) (xs : List ℕ) (i : ℕ) → get_elem? (drop n xs) i ≡ get_elem? xs (n + i)
get_elem?-drop zero xs i = let e : 0 + i ≡ i = omega arith in rw e refl
get_elem?-drop (suc n) [] i = refl
get_elem?-drop (suc n) (x ∷ xs) i =
    let e : suc n + i ≡ suc (n + i) = omega arith in rw e (get_elem?-drop n xs i)

-- Buffers of one length that agree at every index are the same.
pub eq_of_elems :
    (xs ys : List ℕ)
    → length xs ≡ length ys
    → ((i : ℕ) → i < length xs → get_elem? xs i ≡ get_elem? ys i)
    → xs ≡ ys
eq_of_elems [] [] e h = refl
eq_of_elems [] (y ∷ ys) e h = absurd (omega (arith, e))
eq_of_elems (x ∷ xs) [] e h = absurd (omega (arith, e))
eq_of_elems (x ∷ xs) (y ∷ ys) e h =
    let first : some x ≡ some y = h 0 (omega arith) in
    let same : x ≡ y = cc in
    let rest = eq_of_elems xs ys (omega (arith, e)) (λ i less. h (suc i) (omega (arith, less))) in
    rw (same, rest) refl
