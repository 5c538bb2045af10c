-- ===== src/Base/Sorter/Insertion.antt =====
-- Insertion sort keeps the laws that are asked of `sort.Slice`, so they can be met.
use mathlib.Core.Path.{◌≡◌}
use mathlib.Core.Bool.{Bool, false}
use mathlib.Core.Logic.{inl, inr}
use mathlib.Core.List.{List, [], ◌∷◌, Perm}
use mathlib.Core.List.Perm
use bittorrent_client_go.Base.Tests.{if◌then◌else◌, Bool-cases}
use bittorrent_client_go.Base.Lists.{All}
use bittorrent_client_go.Base.Sorter.{IsLess, IsSorted, Sorter}

module _ (A : Type 0) (less : A → A → Bool) where
  unfoldable insert_sorted : A → List A → List A
  insert_sorted x [] = x ∷ []
  insert_sorted x (y ∷ ys) = if less y x then y ∷ insert_sorted x ys else x ∷ y ∷ ys

  unfoldable pub insertion_sort : List A → List A
  unfolding insert_sorted
  insertion_sort [] = []
  insertion_sort (x ∷ xs) = insert_sorted x (insertion_sort xs)

  insert_sorted-perm : (x : A) (ys : List A) → Perm (insert_sorted x ys) (x ∷ ys)
  unfolding insert_sorted
  insert_sorted-perm x [] = Perm.refl _
  insert_sorted-perm x (y ∷ ys) = elim (Bool-cases (less y x)) [
    | inl lt ↦ rw lt (Perm.trans (Perm.cons y (insert_sorted-perm x ys)) (Perm.swap x y ys))
    | inr ge ↦ rw ge (Perm.refl _)
  ]

  pub insertion_sort-perm : (xs : List A) → Perm (insertion_sort xs) xs
  unfolding insertion_sort
  insertion_sort-perm [] = Perm.refl _
  insertion_sort-perm (x ∷ xs) =
      Perm.trans (insert_sorted-perm x (insertion_sort xs)) (Perm.cons x (insertion_sort-perm xs))

  insert_sorted-All :
      (P : A → Type 0) (x : A) (ys : List A) → P x → All P ys → All P (insert_sorted x ys)
  unfolding insert_sorted
  insert_sorted-All P x [] h a = (h, tt)
  insert_sorted-All P x (y ∷ ys) h a = elim (Bool-cases (less y x)) [
    | inl lt ↦ rw lt (a.0, insert_sorted-All P x ys h a.1)
    | inr ge ↦ rw ge (h, a)
  ]

  after-All :
      IsLess less
      → (x y : A) (zs : List A) → less y x ≡ false
      → All (λ z. less z y ≡ false) zs
      → All (λ z. less z x ≡ false) zs
  after-All l x y [] h a = tt
  after-All l x y (z ∷ zs) h a = (l.trans x y z h a.0, after-All l x y zs h a.1)

  insert_sorted-IsSorted :
      IsLess less → (x : A) (ys : List A) → IsSorted less ys → IsSorted less (insert_sorted x ys)
  unfolding insert_sorted
  insert_sorted-IsSorted l x [] s = (tt, tt)
  insert_sorted-IsSorted l x (y ∷ ys) s = elim (Bool-cases (less y x)) [
    | inl lt ↦ rw lt (
      insert_sorted-All (λ z. less z y ≡ false) x ys (l.asymm y x lt) s.0,
      insert_sorted-IsSorted l x ys s.1,
    )
    | inr ge ↦ rw ge ((ge, after-All l x y ys ge s.0), s)
  ]

  pub insertion_sort-IsSorted : (xs : List A) → IsLess less → IsSorted less (insertion_sort xs)
  unfolding insertion_sort
  insertion_sort-IsSorted [] l = tt
  insertion_sort-IsSorted (x ∷ xs) l =
      insert_sorted-IsSorted l x (insertion_sort xs) (insertion_sort-IsSorted xs l)

abbrev pub insertion_sorter : Sorter
insertion_sorter = record {
  sort = insertion_sort;
  perm = insertion_sort-perm;
  sorted = insertion_sort-IsSorted;
}
