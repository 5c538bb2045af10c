-- ===== src/Peer/Pool/Backoff.antt =====
-- The delay after a failed connection, on every count of failures.
use native.Mathlib.Numerals.{towards_suc, unary_clauses}
use bittorrent_client_go.Base.{
  ap, Bool-cases, inl, inr, ==_iff, holds_below, holds_below_sound, ℕ, zero, suc, ◌+◌, ◌-◌, ◌*◌,
  ◌%◌, ◌^◌, ◌≤◌, ◌<◌, ◌≡◌, refl, min, ltb, leb, ◌==◌, ◌||◌, arith, true,
}
use bittorrent_client_go.Peer.Pool.{backoff}

pow_eight : (k : ℕ) → 2 ^ (k + 8) ≡ 256 * 2 ^ k
pow_eight k = simp towards_suc (omega arith)

pow_two : (k : ℕ) → 2 ^ (k + 2) ≡ 4 * 2 ^ k
pow_two k = simp towards_suc (omega arith)

pow_ten : (k : ℕ) → 2 ^ (k + 10) ≡ 1024 * 2 ^ k
pow_ten k =
    let e : k + 10 ≡ k + 2 + 8 = omega arith in rw e (omega (arith, pow_eight (k + 2), pow_two k))

-- A wrapped multiple of 1024 is zero or past the cap.
wrapped_delay :
    (m : ℕ)
    → let w = (15 * ((1024 * m) % 2 ^ 64)) % 2 ^ 64 in
      (ltb 600 w || (w == 0 || leb (2 ^ 63) w)) ≡ true
wrapped_delay m =
    let w : ℕ = (15 * ((1024 * m) % 2 ^ 64)) % 2 ^ 64 in
    let d : w % 1024 ≡ 0 = omega arith in delay w d
  where
    delay : (w : ℕ) → w % 1024 ≡ 0 → (ltb 600 w || (w == 0 || leb (2 ^ 63) w)) ≡ true
    delay w d = ground arith

pow_pos : (k : ℕ) → 0 < 2 ^ k
pow_pos zero = omega arith
pow_pos (suc k) = simp unary_clauses (omega (arith, pow_pos k))

small_delays : holds_below 10 (λ n. backoff (suc n) == min (15 * 2 ^ n) 600) ≡ true
unfolding holds_below backoff
small_delays = refl

large_delay : (k : ℕ) → backoff (suc (k + 10)) ≡ 600
unfolding backoff
large_delay k =
    let e : suc (k + 10) - 1 ≡ k + 10 = omega arith in rw (e, pow_ten k, wrapped_delay (2 ^ k))

-- The delay after the `n + 1`-th failure in a row is 15 seconds doubled `n` times, and at most 600,
-- for every `n`: where the product overflows the 64-bit `int`, the cap is taken.
pub backoff_lem : (n : ℕ) → backoff (suc n) ≡ min (15 * 2 ^ n) 600
backoff_lem n = elim (Bool-cases (ltb n 10)) [
  | inl small ↦ (==_iff _ _).0 (holds_below_sound 10 _ n small_delays (ground arith))
  | inr large ↦
      let e : n ≡ n - 10 + 10 = ground arith in
      let c : 600 ≤ 15 * 2 ^ n = rw (e, pow_ten (n - 10)) (omega (arith, pow_pos (n - 10))) in
      rw (ap (λ k. backoff (suc k)) e, large_delay (n - 10)) (omega arith)
]
