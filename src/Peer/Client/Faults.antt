-- ===== src/Peer/Client/Faults.antt =====
-- A peer that answers a request with a malformed piece.
use bittorrent_client_go.Base.{
  ℕ, suc, ◌-◌, ◌<◌, ◌≡◌, refl, true, inl, inr, ◌⊎◌, some, List, [], ◌∷◌, Bytes, ltb, length,
  length-replicate, replicate, panic, u32_of, arith,
}
use bittorrent_client_go.Peer.Client.{
  Incoming, message, Client, blocks_of, put_block, receive_blocks, download_piece,
}

-- The begin that a payload of 8 bytes or more gives
abbrev pub begin_of : Bytes → ℕ
begin_of (a ∷ b ∷ c ∷ d ∷ e ∷ f ∷ g ∷ h ∷ block) = u32_of e f g h
begin_of _ = 0

put_block_panic :
    (payload buffer : Bytes)
    → (length payload < 8) ⊎ (length buffer < begin_of payload)
    → put_block payload buffer ≡ panic
unfolding put_block
put_block_panic [] buffer h = refl
put_block_panic (a ∷ []) buffer h = refl
put_block_panic (a ∷ b ∷ []) buffer h = refl
put_block_panic (a ∷ b ∷ c ∷ []) buffer h = refl
put_block_panic (a ∷ b ∷ c ∷ d ∷ []) buffer h = refl
put_block_panic (a ∷ b ∷ c ∷ d ∷ e ∷ []) buffer h = refl
put_block_panic (a ∷ b ∷ c ∷ d ∷ e ∷ f ∷ []) buffer h = refl
put_block_panic (a ∷ b ∷ c ∷ d ∷ e ∷ f ∷ g ∷ []) buffer h = refl
put_block_panic (a ∷ b ∷ c ∷ d ∷ e ∷ f ∷ g ∷ i ∷ block) buffer h = elim h [
  | inl short ↦ absurd (omega (arith, short))
  | inr past ↦ let out : ltb (length buffer) (u32_of e f g i) ≡ true = ground arith in rw out refl
]

-- `DownloadPiece` of a piece that is not empty panics if the peer's next message is a piece of fewer
-- than 8 bytes, or one whose begin is past the end of the piece.
pub download_piece_panic :
    (index n : ℕ) (payload : Bytes) (stream : List Incoming) (c : Client)
    → 0 < n
    → c.incoming ≡ message 7 (some payload) ∷ stream
    → (length payload < 8) ⊎ (n < begin_of payload)
    → download_piece index n c ≡ panic
unfolding download_piece receive_blocks
download_piece_panic index n payload stream c pos next bad =
    let size = length-replicate {A = ℕ} n 0 in
    let more : blocks_of n ≡ suc (blocks_of n - 1) = omega arith in
    let fails : put_block payload (replicate n 0) ≡ panic =
      put_block_panic payload (replicate n 0)
        (elim bad [ inl short ↦ inl short | inr past ↦ inr (omega (arith, past, size)) ]) in
    rw (next, more, fails) refl
