-- ===== src/Peer/Pool.antt =====
-- peer/pool.go: the pool of known endpoints. The lock that each method holds makes it one step; the
-- time is an argument, in seconds, and 0 is the zero time. `FailCount` does not wrap.
pub mod Backoff
pub mod Candidates
mod Tests
use bittorrent_client_go.Base.{
  ℕ, suc, ◌+◌, ◌-◌, ◌*◌, ◌%◌, ◌^◌, Bool, true, false, not, ◌&&◌, ◌||◌, Option, none, some, List, [],
  ◌∷◌, Bytes, ltb, leb, ◌==◌, if◌then◌else◌, length, lookup, insert,
}

pub record PeerEndpoint : Type 0 where
  pub address : Bytes
  pub fail_count : ℕ
  pub next_retry_time : ℕ
  pub is_seed : Bool

-- The map of `PeerEndpointPool`.
abbrev pub Pool : Type 0
Pool = List (Bytes × PeerEndpoint)

abbrev pub new_endpoint : Bytes → PeerEndpoint
new_endpoint addr = record { address = addr; fail_count = 0; next_retry_time = 0; is_seed = false }

-- `Add`
unfoldable pub add : Bytes → Pool → Pool
add addr p = elim (lookup addr p) [ none ↦ insert addr (new_endpoint addr) p | some ep ↦ p ]

-- `15 * (1 << (ep.FailCount - 1))` in a 64-bit `int`, then the cap. A word of 2^63 or more is
-- negative.
unfoldable pub backoff : ℕ → ℕ
backoff fail_count =
    let seconds = (15 * (2 ^ (fail_count - 1) % 2 ^ 64)) % 2 ^ 64 in
    if ltb 600 seconds || (seconds == 0 || leb (2 ^ 63) seconds) then 600 else seconds

abbrev pub failed : ℕ → PeerEndpoint → PeerEndpoint
failed now ep = record ep {
  fail_count = ep.fail_count + 1;
  next_retry_time = now + backoff (ep.fail_count + 1);
}

-- `MarkFailed`
unfoldable pub mark_failed : ℕ → Bytes → Pool → Pool
mark_failed now addr p = elim (lookup addr p) [
  | none ↦ insert addr (failed now (new_endpoint addr)) p
  | some ep ↦ insert addr (failed now ep) p
]

-- `MarkSucceeded`
unfoldable pub mark_succeeded : Bytes → Pool → Pool
mark_succeeded addr p = elim (lookup addr p) [
  | none ↦ p
  | some ep ↦ insert addr (record ep { fail_count = 0; next_retry_time = 0 }) p
]

-- `MarkSeed`
unfoldable pub mark_seed : Bytes → Bool → Pool → Pool
mark_seed addr is_seed p = elim (lookup addr p) [
  | none ↦ p
  | some ep ↦ insert addr (record ep { is_seed = is_seed }) p
]

-- The conditions under which the loop of `GetCandidates` does not continue.
unfoldable pub is_eligible : Bool → ℕ → PeerEndpoint → Bool
is_eligible exclude_seeds now ep =
    not (leb 5 ep.fail_count)
    && (not (exclude_seeds && ep.is_seed) && not (ltb now ep.next_retry_time))

-- `GetCandidates`
unfoldable pub get_candidates : Bool → ℕ → Pool → List Bytes
unfolding is_eligible
get_candidates exclude_seeds now [] = []
get_candidates exclude_seeds now ((k, ep) ∷ p) =
    let rest = get_candidates exclude_seeds now p in
    if is_eligible exclude_seeds now ep then ep.address ∷ rest else rest

-- `EvictDead`
abbrev pub evict_dead : Pool → Pool
evict_dead p = p

-- `Size`
unfoldable pub size : Pool → ℕ
size p = length p
