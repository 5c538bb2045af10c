-- ===== src/Peer/Pool/Tests.antt =====
-- A pool of two endpoints.
use bittorrent_client_go.Base.{
  ◌↔◌, some, ◌≡◌, ◌*◌, ◌^◌, refl, min, true, false, [], ◌∷◌, codes, bytes_eq, lookup, insert, inl,
  arith,
}
use bittorrent_client_go.Peer.Pool.{
  PeerEndpoint, Pool, add, backoff, mark_failed, is_eligible, get_candidates,
}
use bittorrent_client_go.Peer.Pool.Backoff.{backoff_lem}
use bittorrent_client_go.Peer.Pool.Candidates.{
  contains, IsKeyed, MayBeTried, get_candidates_iff, mark_failed-delays,
}

unfoldable two_endpoints : Pool
unfolding add mark_failed lookup insert bytes_eq backoff
two_endpoints = mark_failed 100 (codes "b") (add (codes "b") (add (codes "a") []))

two_endpoints-IsKeyed : IsKeyed two_endpoints
unfolding two_endpoints add mark_failed lookup insert bytes_eq backoff
two_endpoints-IsKeyed = (refl, (refl, tt), (refl, tt, tt))

candidates_early : get_candidates true 114 two_endpoints ≡ codes "a" ∷ []
unfolding two_endpoints add mark_failed lookup insert bytes_eq backoff get_candidates is_eligible
candidates_early = refl

candidates_later : get_candidates true 115 two_endpoints ≡ codes "a" ∷ codes "b" ∷ []
unfolding two_endpoints add mark_failed lookup insert bytes_eq backoff get_candidates is_eligible
candidates_later = refl

backoff_example : backoff 100 ≡ min (15 * 2 ^ 99) 600
backoff_example = backoff_lem 99

get_candidates_iff_example :
    (contains (codes "b") (get_candidates true 115 two_endpoints) ≡ true)
    ↔ ((ep : PeerEndpoint) × (lookup (codes "b") two_endpoints ≡ some ep) × MayBeTried true 115 ep)
get_candidates_iff_example =
    get_candidates_iff true 115 (codes "b") two_endpoints two_endpoints-IsKeyed

mark_failed-delays_example :
    contains (codes "a") (get_candidates true 214 (mark_failed 200 (codes "a") two_endpoints))
    ≡ false
unfolding two_endpoints add mark_failed lookup insert bytes_eq backoff
mark_failed-delays_example =
    mark_failed-delays true 200 214 (codes "a") two_endpoints two_endpoints-IsKeyed
      (inl (omega arith))
