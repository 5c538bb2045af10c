-- ===== src/Seeder/Handler/Fuel.antt =====
-- The loop of the seeder ends: each round reads at least the four bytes of a length prefix.
use bittorrent_client_go.Base.{
  ℕ, zero, suc, ◌+◌, ◌≤◌, ◌<◌, ◌≢◌, Bool, Bool-cases, inl, inr, List, [], ◌∷◌, Bytes, ltb, ◌==◌,
  length, length-drop, Result, ok, err, panic, Post, bind-Post, if-Post, arith,
}
use bittorrent_client_go.Peer.Message.{
  ReadError, read_full, u32_at, split_message, read_body, read_message,
}
use bittorrent_client_go.Seeder.Handler.{
  handle, closed, crashed, out_of_fuel, Served, served, round, serve,
}

abbrev Anyway : ReadError → Type 0
Anyway e = Unit

-- What is left after a read is not longer than what there was, less so many bytes.
abbrev Leaves {ℓ} : {A : Type ℓ} → ℕ → ℕ → A × Bytes → Type 0
Leaves n len (a, rest) = n + length rest ≤ len

read_full-Leaves : (n : ℕ) (s : Bytes) → Post (Leaves n (length s)) Anyway (read_full n s)
unfolding read_full
read_full-Leaves n s = elim (Bool-cases (ltb (length s) n)) [
  | inl e ↦ rw e tt
  | inr e ↦ rw e (ground (arith, length-drop n s))
]

split_message-Leaves :
    (n len : ℕ) (buf rest : Bytes)
    → n + length rest ≤ len
    → Post (Leaves 0 len) Anyway (split_message buf rest)
split_message-Leaves n len [] rest h = tt
split_message-Leaves n len (id ∷ payload) rest h = omega arith

read_body-Leaves : (n : ℕ) (s : Bytes) → Post (Leaves 0 (length s)) Anyway (read_body n s)
unfolding read_body
read_body-Leaves n s = if-Post (Leaves 0 (length s)) Anyway (n == 0) _ _ (omega arith) (
    bind-Post (Leaves n (length s)) (Leaves 0 (length s)) Anyway (read_full n s) _
      (read_full-Leaves n s) (λ (buf, rest) h. split_message-Leaves n (length s) buf rest h))

any-Post {ℓ} : {A : Type ℓ} (m : Result ReadError A) → Post (λ a. Unit) Anyway m
any-Post (ok a) = tt
any-Post (err e) = tt
any-Post panic = tt

Leaves-further {ℓ} :
    {A : Type ℓ} (n len short : ℕ) (m : Result ReadError (A × Bytes))
    → n + short ≤ len
    → Post (Leaves 0 short) Anyway m
    → Post (Leaves n len) Anyway m
Leaves-further n len short (ok (a, rest)) h k = omega arith
Leaves-further n len short (err e) h k = tt
Leaves-further n len short panic h k = tt

read_message-Leaves : (s : Bytes) → Post (Leaves 4 (length s)) Anyway (read_message s)
unfolding read_message
read_message-Leaves s =
    bind-Post (Leaves 4 (length s)) (Leaves 4 (length s)) Anyway (read_full 4 s) _
      (read_full-Leaves 4 s)
      (λ (head, after) h.
        bind-Post (λ n. Unit) (Leaves 4 (length s)) Anyway (u32_at head) _ (any-Post (u32_at head))
          (λ n k. Leaves-further 4 (length s) (length after) _ h (read_body-Leaves n after)))

abbrev LeavesLess : ℕ → Bool × Bytes × Bytes → Type 0
LeavesLess len (next, out, rest) = length rest < len

round-LeavesLess :
    (pieces : List Bytes) (i : Bool) (s : Bytes)
    → Post (LeavesLess (length s)) Anyway (round pieces i s)
unfolding round
round-LeavesLess pieces i s =
    bind-Post (Leaves 4 (length s)) (LeavesLess (length s)) Anyway (read_message s) _
      (read_message-Leaves s)
      (λ (m, rest) h.
        bind-Post (λ a. Unit) (LeavesLess (length s)) Anyway (handle pieces i m) _
          (any-Post (handle pieces i m)) (λ (next, out) k. omega (arith, h)))

-- With more fuel than the connection delivers bytes, the seeder's loop does not use it up: it
-- returns or panics.
pub serve-ends :
    (fuel : ℕ) (pieces : List Bytes) (i : Bool) (s : Bytes)
    → length s < fuel
    → (serve fuel pieces i s).ending ≢ out_of_fuel
unfolding serve
serve-ends zero pieces i s h = omega arith
serve-ends (suc fuel) pieces i s h =
    next_round (λ next rest less. serve-ends fuel pieces next rest less) (round pieces i s)
      (round-LeavesLess pieces i s)
  where
    next_round :
        ((next : Bool) (rest : Bytes)
          → length rest < fuel
          → (serve fuel pieces next rest).ending ≢ out_of_fuel)
        → (r : Result ReadError (Bool × Bytes × Bytes)) → Post (LeavesLess (length s)) Anyway r
        → (elim r as (λ x. Served) [
          | ok (next, out, rest) ↦ served out (serve fuel pieces next rest)
          | err e ↦ record { sent = []; ending = closed }
          | panic ↦ record { sent = []; ending = crashed }
        ]).ending
          ≢ out_of_fuel
    next_round ends (ok (next, out, rest)) less = ends next rest (omega (arith, less))
    next_round ends (err e) less = λ e. cc
    next_round ends panic less = λ e. cc
