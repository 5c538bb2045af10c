-- ===== src/Seeder/Storage/Bitfield.antt =====
-- The bitfield that the seeder sends, as a downloading peer reads it.
use Prim.Native.Nat.{bit_and, bit_or}
use mathlib.Core.Path.{subst}
use bittorrent_client_go.Base.{
  ℕ, zero, suc, ◌+◌, ◌-◌, ◌*◌, ◌/◌, ◌%◌, ◌^◌, ◌≤◌, ◌<◌, ◌≡◌, ◌≢◌, refl, ap, ◌∙◌, min, Bool, true,
  false, not, Bool-cases, inl, inr, none, some, [], ◌∷◌, Bytes, ltb, leb, ◌==◌, ==_iff, length,
  length-set, length-replicate, get_elem?, get_or, set, replicate, holds_below, holds_below_sound,
  arith,
}
use bittorrent_client_go.Download.Picker.Choose.{has_bit}
use bittorrent_client_go.Seeder.Storage.{set_bits, build_bitfield}

-- A byte whose `c` highest bits are set.
abbrev top_bits : ℕ → ℕ
top_bits c = 256 - 2 ^ (8 - c)

get_or-set : (f : Bytes) (k : ℕ) (v : ℕ) → k < length f → get_or (set f k v) k 0 ≡ v
get_or-set [] k v h = omega arith
get_or-set (x ∷ f) zero v h = refl
get_or-set (x ∷ f) (suc k) v h = get_or-set f k v (omega arith)

get_or-set_other : (f : Bytes) (j k v : ℕ) → j ≢ k → get_or (set f k v) j 0 ≡ get_or f j 0
get_or-set_other [] j k v h = refl
get_or-set_other (x ∷ f) zero zero v h = absurd (h refl)
get_or-set_other (x ∷ f) (suc j) zero v h = refl
get_or-set_other (x ∷ f) zero (suc k) v h = refl
get_or-set_other (x ∷ f) (suc j) (suc k) v h = get_or-set_other f j k v (λ e. h (ap suc e))

get_or-replicate : (n k : ℕ) → get_or (replicate {A = ℕ} n 0) k 0 ≡ 0
get_or-replicate zero k = refl
get_or-replicate (suc n) zero = refl
get_or-replicate (suc n) (suc k) = get_or-replicate n k

-- The bitfield after the bits below `i` are set.
abbrev IsPrefix : ℕ → Bytes → Type 0
IsPrefix i f = (k : ℕ) → get_or f k 0 ≡ top_bits (min 8 (i - 8 * k))

unfoldable bool_eq : Bool → Bool → Bool
bool_eq true b = b
bool_eq false b = not b

bool_eq_sound : (a b : Bool) → bool_eq a b ≡ true → a ≡ b
unfolding bool_eq
bool_eq_sound true true h = refl
bool_eq_sound true false h = cc
bool_eq_sound false true h = cc
bool_eq_sound false false h = refl

next_bit : holds_below 8 (λ c. bit_or (top_bits c) (2 ^ (7 - c)) == top_bits (c + 1)) ≡ true
unfolding holds_below
next_bit = refl

read_bit :
    holds_below 8
      (λ j. holds_below 9 (λ c. bool_eq (bit_and (top_bits c) (2 ^ (7 - j)) == 0) (leb c j)))
    ≡ true
unfolding holds_below bool_eq
read_bit = refl

step-IsPrefix :
    (i : ℕ) (f : Bytes)
    → IsPrefix i f
    → i < 8 * length f
    → IsPrefix (i + 1) (set f (i / 8) (bit_or (get_or f (i / 8) 0) (2 ^ (7 - i % 8))))
step-IsPrefix i f h lt k = elim (Bool-cases (k == i / 8)) [
  | inl e ↦
      let same : k ≡ i / 8 = ground arith in
      let here : min 8 (i - 8 * (i / 8)) ≡ i % 8 = omega arith in
      let there : min 8 (i + 1 - 8 * (i / 8)) ≡ i % 8 + 1 = omega arith in
      rw (same, there, get_or-set f (i / 8) _ (omega arith), h (i / 8), here)
        ((==_iff _ _).0 (holds_below_sound 8 _ (i % 8) next_bit (omega arith)))
  | inr e ↦
      let other : k ≢ i / 8 = ground arith in
      let unchanged : min 8 (i + 1 - 8 * k) ≡ min 8 (i - 8 * k) = omega arith in
      rw
        (
          unchanged,
          get_or-set_other f k (i / 8) (bit_or (get_or f (i / 8) 0) (2 ^ (7 - i % 8))) other,
        )
        (h k)
]

set_bits-IsPrefix :
    (r i : ℕ) (f : Bytes)
    → IsPrefix i f
    → i + r ≤ 8 * length f
    → IsPrefix (i + r) (set_bits r i f) × (length (set_bits r i f) ≡ length f)
unfolding set_bits
set_bits-IsPrefix zero i f h le = let e : i + 0 ≡ i = omega arith in (rw e h, refl)
set_bits-IsPrefix (suc r) i f h le =
    let v = bit_or (get_or f (i / 8) 0) (2 ^ (7 - i % 8)) in
    let e : i + suc r ≡ i + 1 + r = omega arith in
    let kept = length-set f (i / 8) v in
    let (rest, size) =
      set_bits-IsPrefix r (i + 1) (set f (i / 8) v) (step-IsPrefix i f h (omega arith))
        (omega arith) in
    (rw e rest, size ∙ kept)

get_elem?-get_or : (f : Bytes) (k : ℕ) → k < length f → get_elem? f k ≡ some (get_or f k 0)
get_elem?-get_or [] k h = absurd (omega (arith, h))
get_elem?-get_or (x ∷ f) zero h = refl
get_elem?-get_or (x ∷ f) (suc k) h = get_elem?-get_or f k (omega arith)

get_elem?_past : (f : Bytes) (k : ℕ) → length f ≤ k → get_elem? f k ≡ none
get_elem?_past [] k h = refl
get_elem?_past (x ∷ f) zero h = absurd (omega (arith, h))
get_elem?_past (x ∷ f) (suc k) h = get_elem?_past f k (omega arith)

built : (n : ℕ) → IsPrefix n (build_bitfield n) × (length (build_bitfield n) ≡ (n + 7) / 8)
unfolding build_bitfield
built n =
    let zeros : Bytes = replicate ((n + 7) / 8) 0 in
    let size : length zeros ≡ (n + 7) / 8 = length-replicate ((n + 7) / 8) 0 in
    let start : IsPrefix 0 zeros = (λ k. rw (get_or-replicate ((n + 7) / 8) k) (zero_byte k)) in
    let (all, kept) = set_bits-IsPrefix n 0 zeros start (omega (arith, size)) in
    let e : 0 + n ≡ n = omega arith in
    (subst (λ m. IsPrefix m (set_bits n 0 zeros)) e all, kept ∙ size)
  where
    zero_byte : (k : ℕ) → 0 ≡ top_bits (min 8 (0 - 8 * k))
    zero_byte k = let e : min 8 (0 - 8 * k) ≡ 0 = omega arith in rw e refl

-- Of the bitfield that the seeder sends for `n` pieces, a downloading peer reads that the seeder has
-- exactly the pieces below `n`: the spare bits at the end are not set.
pub has_bit-build_bitfield : (n i : ℕ) → has_bit (build_bitfield n) i ≡ ltb i n
unfolding has_bit
has_bit-build_bitfield n i =
    let (all, size) = built n in
    elim (Bool-cases (ltb (i / 8) ((n + 7) / 8))) [
      | inl within ↦
          let c = min 8 (n - 8 * (i / 8)) in
          let some_byte = get_elem?-get_or (build_bitfield n) (i / 8) (ground arith) in
          let bit = holds_below_sound 8 _ (i % 8) read_bit (omega arith) in
          let seen = bool_eq_sound _ _ (holds_below_sound 9 _ c bit (omega arith)) in
          let set_below : not (leb c (i % 8)) ≡ ltb i n = ground arith in
          rw (some_byte, has_bit, all (i / 8), seen) set_below
      | inr past ↦
          let no_byte = get_elem?_past (build_bitfield n) (i / 8) (ground arith) in
          rw (no_byte, has_bit) (ground arith)
    ]
