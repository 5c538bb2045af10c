-- ===== src/Base/Map.antt =====
-- Go maps with string keys, and with integer keys, as association lists.
use mathlib.Core.Path.{◌≡◌, refl}
use mathlib.Core.Option.{Option, none, some}
use mathlib.Core.List.{List, [], ◌∷◌}
use Prim.Native.Nat.{ℕ}
use native.Mathlib.Omega.{arith}
use bittorrent_client_go.Base.Tests.{if◌then◌else◌, ◌==◌}
use bittorrent_client_go.Base.Text.{Bytes, bytes_eq, bytes_eq_iff}

module _ {ℓ} {V : Type ℓ} where
  -- `m[k]`
  unfoldable pub lookup : Bytes → List (Bytes × V) → Option V
  lookup k [] = none
  lookup k ((j, v) ∷ m) = if bytes_eq j k then some v else lookup k m

  -- `m[k] = v`
  unfoldable pub insert : Bytes → V → List (Bytes × V) → List (Bytes × V)
  insert k v [] = (k, v) ∷ []
  insert k v ((j, w) ∷ m) = if bytes_eq j k then (k, v) ∷ m else (j, w) ∷ insert k v m

  -- `delete(m, k)`
  unfoldable pub delete : Bytes → List (Bytes × V) → List (Bytes × V)
  delete k [] = []
  delete k ((j, w) ∷ m) = let rest = delete k m in if bytes_eq j k then rest else (j, w) ∷ rest

  pub lookup-insert :
      (k j : Bytes) (v : V) (m : List (Bytes × V))
      → lookup j (insert k v m) ≡ (if bytes_eq k j then some v else lookup j m)
  unfolding lookup insert
  lookup-insert k j v [] = refl
  lookup-insert k j v ((i, w) ∷ m) =
      ground (arith, bytes_eq_iff k j, bytes_eq_iff i k, bytes_eq_iff i j, lookup-insert k j v m)

  pub lookup-delete :
      (k j : Bytes) (m : List (Bytes × V))
      → lookup j (delete k m) ≡ (if bytes_eq k j then none else lookup j m)
  unfolding lookup delete
  lookup-delete k j [] = ground arith
  lookup-delete k j ((i, w) ∷ m) =
      ground (arith, bytes_eq_iff k j, bytes_eq_iff i k, bytes_eq_iff i j, lookup-delete k j m)

module _ {ℓ} {V : Type ℓ} where
  unfoldable pub lookup_at : ℕ → List (ℕ × V) → Option V
  lookup_at k [] = none
  lookup_at k ((j, v) ∷ m) = if j == k then some v else lookup_at k m

  unfoldable pub insert_at : ℕ → V → List (ℕ × V) → List (ℕ × V)
  insert_at k v [] = (k, v) ∷ []
  insert_at k v ((j, w) ∷ m) = if j == k then (k, v) ∷ m else (j, w) ∷ insert_at k v m

  unfoldable pub delete_at : ℕ → List (ℕ × V) → List (ℕ × V)
  delete_at k [] = []
  delete_at k ((j, w) ∷ m) = let rest = delete_at k m in if j == k then rest else (j, w) ∷ rest

  pub lookup_at-insert_at :
      (k j : ℕ) (v : V) (m : List (ℕ × V))
      → lookup_at j (insert_at k v m) ≡ (if k == j then some v else lookup_at j m)
  unfolding lookup_at insert_at
  lookup_at-insert_at k j v [] = refl
  lookup_at-insert_at k j v ((i, w) ∷ m) = ground (arith, lookup_at-insert_at k j v m)

  pub lookup_at-delete_at :
      (k j : ℕ) (m : List (ℕ × V))
      → lookup_at j (delete_at k m) ≡ (if k == j then none else lookup_at j m)
  unfolding lookup_at delete_at
  lookup_at-delete_at k j [] = ground arith
  lookup_at-delete_at k j ((i, w) ∷ m) = ground (arith, lookup_at-delete_at k j m)
