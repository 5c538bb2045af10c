-- ===== src/Download/Manager/Run.antt =====
-- The turns of `Start`'s loop, with what the network and the session do between them, and what the
-- storage thread makes of the pieces that it is sent. An event gives the time, the fuel of
-- `pipelineRequests` and, where a message brings one, its buffer.
use bittorrent_client_go.Base.{
  ℕ, ◌+◌, ◌-◌, ◌*◌, Option, none, some, List, [], ◌∷◌, ◌++◌, Bytes, length, replicate, copy_at,
}
use bittorrent_client_go.Base.Sorter.{Sorter}
use bittorrent_client_go.Peer.Pipeline.{PeerMessage, Link}
use bittorrent_client_go.Download.Manager.{
  PieceWrite, TorrentManager, add_peer, remove_peer, on_message, on_tick, pipeline_requests,
}

pub data Event : Type 0 where
  joins : (now : ℕ) (addr : Bytes) (buffered : List (ℕ × Bytes)) → Event
  leaves : (addr : Bytes) → Event
  hears : (fuel now : ℕ) (msg : PeerMessage) (buffer : Option ℕ) → Event
  ticks : (fuel now : ℕ) → Event
  -- A client's own loops go on.
  moves : (peers : List (Bytes × Link)) → Event

module _ (sha1 : Bytes → Bytes) (sorter : Sorter) where
  unfoldable pub step : Event → TorrentManager → Option TorrentManager
  step (joins now addr buffered) tm = some (add_peer now addr buffered tm).0
  step (leaves addr) tm = some (remove_peer addr tm)
  step (hears fuel now msg buffer) tm = elim (on_message sha1 msg buffer tm) [
    | none ↦ none
    | some next ↦ some (pipeline_requests fuel sorter now next)
  ]
  step (ticks fuel now) tm = some (pipeline_requests fuel sorter now (on_tick now tm))
  step (moves peers) tm = some (record tm { active_peers = peers })

  unfoldable pub run : List Event → TorrentManager → Option TorrentManager
  unfolding step
  run [] tm = some tm
  run (e ∷ events) tm = elim (step e tm) [ none ↦ none | some next ↦ run events next ]

-- `WriteAt`, which makes the file longer with zeros where it must
unfoldable pub write_at : ℕ → Bytes → Bytes → Bytes
write_at offset file bytes =
    copy_at offset (file ++ replicate (offset + length bytes - length file) 0) bytes

-- `storageLoop`
unfoldable pub storage_loop : ℕ → List PieceWrite → Bytes → Bytes
unfolding write_at
storage_loop piece_len [] file = file
storage_loop piece_len (w ∷ ws) file =
    storage_loop piece_len ws (write_at (w.index * piece_len) file w.bytes)
