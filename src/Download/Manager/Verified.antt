-- ===== src/Download/Manager/Verified.antt =====
-- What the manager sends to the storage has the hash that the torrent gives.
use bittorrent_client_go.Base.{
  ℕ, zero, suc, ◌+◌, ◌*◌, ◌≤◌, ◌≡◌, refl, sym, ◌∙◌, Bool, true, false, Bool-cases, inl, inr, Option,
  none, some, Option-cases, List, [], ◌∷◌, ◌++◌, Bytes, bytes_eq, eq_of_bytes_eq, ltb, ◌==◌, length,
  All, All-snoc, length-copy_at, length-replicate, replicate, copy_at, lookup_at, lookup, arith,
  if◌then◌else◌, u32_of,
}
use bittorrent_client_go.Base.Sorter.{Sorter}
use bittorrent_client_go.Download.Picker.{
  piece_count, piece_length, blocks_in, block_size, new_picker,
}
use bittorrent_client_go.Download.Picker.Choose.{update_peer_bitfield}
use bittorrent_client_go.Download.Picker.Settle.{Progress, mark_completed}
use bittorrent_client_go.Peer.Pipeline.{PeerMessage}
use bittorrent_client_go.Download.Manager.{
  BlockBuffer, PieceWrite, TorrentManager, new_torrent_manager, remove_peer, length_of,
  revert_piece, gather_blocks, free, add_peer, hash_of, verify_piece, verify_and_write_piece,
  store_block, close_done, after_block, on_piece, on_timeout, on_have, handle_message, on_message,
  on_tick, pipeline_requests,
}
use bittorrent_client_go.Download.Manager.Run.{Event, joins, leaves, hears, ticks, moves, step, run}

-- A piece of a torrent with these hashes, total length and piece length
pub record IsVerified (sha1 : Bytes → Bytes) (hashes : Bytes) (total normal : ℕ) (w : PieceWrite)
    : Type 0 where
  pub digest : sha1 w.bytes ≡ hash_of hashes w.index
  pub size : length w.bytes ≡ piece_length total normal (piece_count total normal) w.index
  pub in_hashes : (w.index + 1) * 20 ≤ length hashes

pub record WritesVerified (sha1 : Bytes → Bytes) (hashes : Bytes) (total normal : ℕ)
    (tm : TorrentManager) : Type 0 where
  pub hashes_are : tm.pieces ≡ hashes
  pub total_is : tm.total_len ≡ total
  pub normal_is : tm.piece_len ≡ normal
  pub written : All (IsVerified sha1 hashes total normal) tm.writes

gather_blocks-length :
    (r b : ℕ) (blocks : List (ℕ × BlockBuffer)) (piece_data : Bytes) (freed : List ℕ)
    → length (gather_blocks r b blocks piece_data freed).bytes ≡ length piece_data
unfolding gather_blocks
gather_blocks-length zero b blocks piece_data freed = refl
gather_blocks-length (suc r) b blocks piece_data freed =
    elim (Option-cases (lookup_at (b * block_size) blocks)) [
      | inl e ↦ rw (e, gather_blocks) refl
      | inr (block, e) ↦
          rw (e, gather_blocks)
            (gather_blocks-length r (b + 1) blocks (copy_at (b * block_size) piece_data block.bytes)
                (free block.buffer freed)
              ∙ length-copy_at (b * block_size) piece_data block.bytes)
    ]

module _ (sha1 : Bytes → Bytes) (hashes : Bytes) (total normal : ℕ) where
  abbrev V : TorrentManager → Type 0
  V = WritesVerified sha1 hashes total normal

  -- A manager or a panic
  abbrev OrPanic : Option TorrentManager → Type 0
  OrPanic none = Unit
  OrPanic (some tm) = V tm

  WritesVerified-same :
      (tm next : TorrentManager)
      → next.pieces ≡ tm.pieces
      → next.total_len ≡ tm.total_len
      → next.piece_len ≡ tm.piece_len
      → next.writes ≡ tm.writes
      → V tm
      → V next
  WritesVerified-same tm next p t n w v = record {
    hashes_are = p ∙ v.hashes_are;
    total_is = t ∙ v.total_is;
    normal_is = n ∙ v.normal_is;
    written = rw w v.written;
  }

  if-verified :
      (b : Bool) (x y : Option TorrentManager)
      → OrPanic x
      → OrPanic y
      → OrPanic (if b then x else y)
  if-verified true x y v w = v
  if-verified false x y v w = w

  revert_piece-verified : (index : ℕ) (tm : TorrentManager) → V tm → V (revert_piece index tm)
  unfolding revert_piece
  revert_piece-verified index tm v =
      WritesVerified-same tm (revert_piece index tm) refl refl refl refl v

  verify_piece-verified :
      (index : ℕ) (bytes : Bytes) (tm : TorrentManager)
      → length bytes ≡ length_of tm index
      → V tm
      → OrPanic (verify_piece sha1 index bytes tm)
  unfolding verify_piece
  verify_piece-verified index bytes tm size v =
      elim (Bool-cases (ltb (length tm.pieces) ((index + 1) * 20))) [
        | inl few ↦ rw few tt
        | inr enough ↦ elim (Bool-cases (bytes_eq (sha1 bytes) (hash_of tm.pieces index))) [
          | inl same ↦
              let digest : sha1 bytes ≡ hash_of hashes index =
                rw (sym v.hashes_are)
                  (eq_of_bytes_eq (sha1 bytes) (hash_of tm.pieces index) same) in
              let w : IsVerified sha1 hashes total normal
                  (record { index = index; bytes = bytes }) =
                record {
                  digest = digest;
                  size = rw (sym v.total_is, sym v.normal_is) size;
                  in_hashes = rw (sym v.hashes_are) (ground (arith, enough));
                } in
              rw (enough, same)
                (record {
                  hashes_are = v.hashes_are;
                  total_is = v.total_is;
                  normal_is = v.normal_is;
                  written =
                      All-snoc (IsVerified sha1 hashes total normal) tm.writes
                        (record { index = index; bytes = bytes }) v.written w;
                })
          | inr other ↦ rw (enough, other) (revert_piece-verified index tm v)
        ]
      ]

  verify_and_write_piece-verified :
      (index : ℕ) (tm : TorrentManager) → V tm → OrPanic (verify_and_write_piece sha1 index tm)
  unfolding verify_and_write_piece
  verify_and_write_piece-verified index tm v = elim (Option-cases (lookup_at index tm.piece_bufs)) [
    | inl e ↦ rw (e, verify_and_write_piece) v
    | inr (blocks, e) ↦
        let n = length_of tm index in
        let g = gather_blocks (blocks_in n) 0 blocks (replicate n 0) tm.freed in
        let given : TorrentManager = record tm { freed = g.freed } in
        let v' = WritesVerified-same tm given refl refl refl refl v in
        let size : length g.bytes ≡ n =
          gather_blocks-length (blocks_in n) 0 blocks (replicate n 0) tm.freed
          ∙ length-replicate n 0 in
        elim (Bool-cases g.is_whole) [
          | inl whole ↦
              rw (e, whole, verify_and_write_piece)
                (verify_piece-verified index g.bytes given size v')
          | inr holes ↦ rw (e, holes, verify_and_write_piece) (revert_piece-verified index given v')
        ]
  ]

  settled-verified :
      (o : Option TorrentManager) (all_done : Bool)
      → OrPanic o
      → OrPanic
          (elim o [ none ↦ none | some next ↦ if all_done then close_done next else some next ])
  settled-verified none all_done v = tt
  settled-verified (some tm) false v = v
  settled-verified (some tm) true v = elim (Bool-cases tm.is_done) [
    | inl e ↦ rw e tt
    | inr e ↦ rw e (WritesVerified-same tm (record tm { is_done = true }) refl refl refl refl v)
  ]

  after_block-verified :
      (progress : Option Progress) (index : ℕ) (tm : TorrentManager)
      → V tm
      → OrPanic (after_block sha1 progress index tm)
  unfolding after_block
  after_block-verified none index tm v = v
  after_block-verified (some progress) index tm v = elim (Bool-cases progress.piece_done) [
    | inl e ↦ rw e (
        settled-verified (verify_and_write_piece sha1 index tm) progress.all_done
          (verify_and_write_piece-verified index tm v))
    | inr e ↦ rw e (settled-verified (some tm) progress.all_done v)
  ]

  on_piece-verified :
      (addr payload : Bytes) (buffer : Option ℕ) (tm : TorrentManager)
      → V tm
      → OrPanic (on_piece sha1 addr payload buffer tm)
  unfolding on_piece store_block
  on_piece-verified addr (a ∷ b ∷ c ∷ d ∷ e ∷ f ∷ g ∷ h ∷ block) buffer tm v =
      let index = u32_of a b c d in
      let begin = u32_of e f g h in
      let stored = store_block index begin (record { bytes = block; buffer = buffer }) tm in
      let marked = mark_completed stored.picker index begin addr in
      after_block-verified marked.1 index (record stored { picker = marked.0 })
        (WritesVerified-same tm (record stored { picker = marked.0 }) refl refl refl refl v)
  on_piece-verified addr [] buffer tm v = v
  on_piece-verified addr (a ∷ []) buffer tm v = v
  on_piece-verified addr (a ∷ b ∷ []) buffer tm v = v
  on_piece-verified addr (a ∷ b ∷ c ∷ []) buffer tm v = v
  on_piece-verified addr (a ∷ b ∷ c ∷ d ∷ []) buffer tm v = v
  on_piece-verified addr (a ∷ b ∷ c ∷ d ∷ e ∷ []) buffer tm v = v
  on_piece-verified addr (a ∷ b ∷ c ∷ d ∷ e ∷ f ∷ []) buffer tm v = v
  on_piece-verified addr (a ∷ b ∷ c ∷ d ∷ e ∷ f ∷ g ∷ []) buffer tm v = v

  remove_peer-verified : (addr : Bytes) (tm : TorrentManager) → V tm → V (remove_peer addr tm)
  unfolding remove_peer
  remove_peer-verified addr tm v = elim (Option-cases (lookup addr tm.active_peers)) [
    | inl e ↦ rw (e, remove_peer) v
    | inr (client, e) ↦
        rw (e, remove_peer)
          (record {
            hashes_are = v.hashes_are;
            total_is = v.total_is;
            normal_is = v.normal_is;
            written = v.written;
          })
  ]

  on_timeout-verified : (payload : Bytes) (tm : TorrentManager) → V tm → V (on_timeout payload tm)
  unfolding on_timeout
  on_timeout-verified (a ∷ b ∷ c ∷ d ∷ e ∷ f ∷ g ∷ h ∷ rest) tm v =
      WritesVerified-same tm (on_timeout (a ∷ b ∷ c ∷ d ∷ e ∷ f ∷ g ∷ h ∷ rest) tm) refl refl refl
        refl v
  on_timeout-verified [] tm v = v
  on_timeout-verified (a ∷ []) tm v = v
  on_timeout-verified (a ∷ b ∷ []) tm v = v
  on_timeout-verified (a ∷ b ∷ c ∷ []) tm v = v
  on_timeout-verified (a ∷ b ∷ c ∷ d ∷ []) tm v = v
  on_timeout-verified (a ∷ b ∷ c ∷ d ∷ e ∷ []) tm v = v
  on_timeout-verified (a ∷ b ∷ c ∷ d ∷ e ∷ f ∷ []) tm v = v
  on_timeout-verified (a ∷ b ∷ c ∷ d ∷ e ∷ f ∷ g ∷ []) tm v = v

  on_have-verified :
      (addr payload : Bytes) (tm : TorrentManager) → V tm → V (on_have addr payload tm)
  unfolding on_have
  on_have-verified addr (a ∷ b ∷ c ∷ d ∷ rest) tm v =
      WritesVerified-same tm (on_have addr (a ∷ b ∷ c ∷ d ∷ rest) tm) refl refl refl refl v
  on_have-verified addr [] tm v = v
  on_have-verified addr (a ∷ []) tm v = v
  on_have-verified addr (a ∷ b ∷ []) tm v = v
  on_have-verified addr (a ∷ b ∷ c ∷ []) tm v = v

  handle_message-verified :
      (msg : PeerMessage) (buffer : Option ℕ) (tm : TorrentManager)
      → V tm
      → OrPanic (handle_message sha1 msg buffer tm)
  unfolding handle_message
  handle_message-verified msg buffer tm v =
      let gone : TorrentManager = record (remove_peer msg.peer_address tm) {
        dropped = tm.dropped ++ (msg.peer_address ∷ []);
      } in
      let fielded : TorrentManager = record tm {
        picker = update_peer_bitfield tm.picker msg.peer_address msg.payload;
      } in
      if-verified (msg.id == 0xFF) _ _
        (WritesVerified-same (remove_peer msg.peer_address tm) gone refl refl refl refl
          (remove_peer-verified msg.peer_address tm v))
        (if-verified (msg.id == 0xFE) _ _ (on_timeout-verified msg.payload tm v) (
          if-verified (msg.id == 5) _ _ (WritesVerified-same tm fielded refl refl refl refl v) (
            if-verified (msg.id == 4) _ _ (on_have-verified msg.peer_address msg.payload tm v) (
              if-verified (msg.id == 7) _ _
                (on_piece-verified msg.peer_address msg.payload buffer tm v) v))))

  on_message-verified :
      (msg : PeerMessage) (buffer : Option ℕ) (tm : TorrentManager)
      → V tm
      → OrPanic (on_message sha1 msg buffer tm)
  unfolding on_message
  on_message-verified msg buffer tm v =
      go (handle_message sha1 msg buffer tm) (handle_message-verified msg buffer tm v)
    where
      go :
          (o : Option TorrentManager)
          → OrPanic o
          → OrPanic (elim o [
            | none ↦ none
            | some next ↦
                some (if msg.id == 7 then next else record next { freed = free buffer next.freed })
          ])
      go none w = tt
      go (some next) w = elim (Bool-cases (msg.id == 7)) [
        | inl e ↦ rw e w
        | inr e ↦ rw e (
            WritesVerified-same next (record next { freed = free buffer next.freed }) refl refl refl
              refl w)
      ]

  step-verified :
      (sorter : Sorter) (e : Event) (tm : TorrentManager) → V tm → OrPanic (step sha1 sorter e tm)
  unfolding step add_peer on_tick pipeline_requests
  step-verified sorter (joins now addr buffered) tm v =
      WritesVerified-same tm (add_peer now addr buffered tm).0 refl refl refl refl v
  step-verified sorter (leaves addr) tm v = remove_peer-verified addr tm v
  step-verified sorter (hears fuel now msg buffer) tm v =
      heard (on_message sha1 msg buffer tm) (on_message-verified msg buffer tm v)
    where
      heard :
          (o : Option TorrentManager)
          → OrPanic o
          → OrPanic
              (elim o [ none ↦ none | some next ↦ some (pipeline_requests fuel sorter now next) ])
      heard none w = tt
      heard (some next) w =
          WritesVerified-same next (pipeline_requests fuel sorter now next) refl refl refl refl w
  step-verified sorter (ticks fuel now) tm v =
      WritesVerified-same tm (pipeline_requests fuel sorter now (on_tick now tm)) refl refl refl
        refl v
  step-verified sorter (moves peers) tm v =
      WritesVerified-same tm (record tm { active_peers = peers }) refl refl refl refl v

  run-verified :
      (sorter : Sorter) (events : List Event) (tm : TorrentManager)
      → V tm
      → OrPanic (run sha1 sorter events tm)
  unfolding run
  run-verified sorter [] tm v = v
  run-verified sorter (e ∷ events) tm v =
      go (step sha1 sorter e tm) (step-verified sorter e tm v)
        (λ next w. run-verified sorter events next w)
    where
      go :
          (o : Option TorrentManager)
          → OrPanic o
          → ((next : TorrentManager) → V next → OrPanic (run sha1 sorter events next))
          → OrPanic (elim o [ none ↦ none | some next ↦ run sha1 sorter events next ])
      go none w h = tt
      go (some next) w h = h next w

  new_torrent_manager-verified : OrPanic (new_torrent_manager hashes total normal)
  unfolding new_torrent_manager
  new_torrent_manager-verified = elim (Option-cases (new_picker total normal)) [
    | inl e ↦ rw (e, new_torrent_manager) tt
    | inr (picker, e) ↦
        rw (e, new_torrent_manager)
          (record { hashes_are = refl; total_is = refl; normal_is = refl; written = tt })
  ]

-- Whatever peers join, leave and send, and whenever the ticker fires: a manager that has not
-- panicked has sent to the storage only pieces of the length that the torrent gives their index, with
-- the torrent's hash for it.
pub run-new_torrent_manager-IsVerified :
    (sha1 : Bytes → Bytes) (sorter : Sorter) (hashes : Bytes) (total normal : ℕ)
    (events : List Event) (start tm : TorrentManager)
    → new_torrent_manager hashes total normal ≡ some start
    → run sha1 sorter events start ≡ some tm
    → All (IsVerified sha1 hashes total normal) tm.writes
run-new_torrent_manager-IsVerified sha1 sorter hashes total normal events start tm new ran =
    let v : OrPanic sha1 hashes total normal (some start) =
      rw new at (new_torrent_manager-verified sha1 hashes total normal) in
    let w : OrPanic sha1 hashes total normal (some tm) =
      rw ran at (run-verified sha1 hashes total normal sorter events start v) in
    w.written
