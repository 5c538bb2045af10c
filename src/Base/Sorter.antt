-- ===== src/Base/Sorter.antt =====
-- `sort.Slice`, which promises an order and no stability: any function with these laws.
pub mod Insertion
use mathlib.Core.Path.{◌≡◌}
use mathlib.Core.Bool.{Bool, true, false}
use mathlib.Core.List.{List, [], ◌∷◌, Perm}
use bittorrent_client_go.Base.Lists.{All}

-- What `sort.Slice` asks of `less`: a strict weak order.
pub record IsLess {A : Type 0} (less : A → A → Bool) : Type 0 where
  pub asymm : (a b : A) → less a b ≡ true → less b a ≡ false
  pub trans : (a b c : A) → less b a ≡ false → less c b ≡ false → less c a ≡ false

-- No element is less than one that stands before it.
abbrev pub IsSorted : {A : Type 0} → (A → A → Bool) → List A → Type 0
IsSorted less [] = Unit
IsSorted less (x ∷ xs) = All (λ y. less y x ≡ false) xs × IsSorted less xs

pub record Sorter : Type 1 where
  pub sort : (A : Type 0) → (A → A → Bool) → List A → List A
  pub perm : (A : Type 0) (less : A → A → Bool) (xs : List A) → Perm (sort A less xs) xs
  pub sorted :
      (A : Type 0) (less : A → A → Bool) (xs : List A)
      → IsLess less
      → IsSorted less (sort A less xs)
