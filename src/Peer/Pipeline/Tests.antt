-- ===== src/Peer/Pipeline/Tests.antt =====
-- A client that waits for two blocks, one of them for too long.
use bittorrent_client_go.Base.{
  false, ◌-◌, ◌≤◌, ◌≡◌, refl, [], ◌∷◌, ◌++◌, map, codes, bytes_eq, insert, put_u32, arith,
}
use bittorrent_client_go.Peer.Pipeline.{
  Link, queue_request, start_loop, get_outstanding_count, tick,
}
use bittorrent_client_go.Peer.Pipeline.Stalls.{sentinel, stalled_among, fresh_among, tick_lem}

abbrev waiting : Link
waiting =
    let client = (start_loop (codes "10.0.0.1:6881") 100 []).0 in
    queue_request 112 0 16384 16384 (queue_request 101 0 0 16384 client)

outstanding : get_outstanding_count waiting ≡ 2
unfolding start_loop queue_request insert bytes_eq get_outstanding_count
outstanding = refl

one_stalled :
    (tick 118 waiting).1
    ≡ record { peer_address = codes "10.0.0.1:6881"; id = 0xFE; payload = put_u32 0 ++ put_u32 0 }
      ∷ []
unfolding start_loop queue_request insert bytes_eq tick
one_stalled = refl

heard_of : 118 - waiting.last_read ≤ 120
unfolding start_loop queue_request
heard_of = omega arith

still_open : waiting.is_closed ≡ false
unfolding start_loop queue_request
still_open = refl

tick_lem_example :
    ((tick 118 waiting).0.outstanding ≡ fresh_among 118 waiting.outstanding)
    × ((tick 118 waiting).1
        ≡ map (sentinel waiting.address) (stalled_among 118 waiting.outstanding))
tick_lem_example = tick_lem 118 waiting still_open heard_of
