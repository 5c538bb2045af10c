-- ===== src/Download/Sequential/Verified.antt =====
-- A file that is returned is made of pieces with the torrent's hashes.
use bittorrent_client_go.Base.{
  int_bound, ◌<◌, ℕ, zero, suc, ◌+◌, ◌-◌, ◌*◌, ◌/◌, ◌≡◌, refl, sym, ap, ◌∙◌, Bool-cases, inl, inr,
  none, some, List, [], ◌∷◌, ◌++◌, append_assoc, append-nil, Bytes, bytes_eq, eq_of_bytes_eq, ltb,
  ◌==◌, if◌then◌else◌, length, length-copy_at, length-replicate, replicate, u32_of, Result, ok, err,
  panic, Post, bind-Post, if-Post,
}
use bittorrent_client_go.Peer.Client.{
  Incoming, message, timed_out, failed, Client, ClientError, blocks_of, put_block, receive_blocks,
  download_piece,
}
use bittorrent_client_go.Download.Picker.{piece_count, piece_length}
use bittorrent_client_go.Download.Picker.Pieces.{piece_count-fits}
use bittorrent_client_go.Download.Manager.{hash_of}
use bittorrent_client_go.Download.Sequential.{
  DownloadError, wrong_hash, not_received, after_error, try_piece, get_piece, get_pieces, get_file,
}

-- What holds of a value that is returned
abbrev OnOk : {E A : Type 0} → (A → Type 0) → Result E A → Type 0
OnOk P r = Post P (λ e. Unit) r

put_block-length :
    (payload piece_data : Bytes)
    → OnOk (λ (t : Bytes). length t ≡ length piece_data) (put_block payload piece_data)
unfolding put_block
put_block-length (a ∷ b ∷ c ∷ d ∷ e ∷ f ∷ g ∷ h ∷ block) piece_data =
    if-Post (λ (t : Bytes). length t ≡ length piece_data) (λ e. Unit)
      (ltb (length piece_data) (u32_of e f g h)) panic _ tt
      (length-copy_at (u32_of e f g h) piece_data block)
put_block-length [] piece_data = tt
put_block-length (a ∷ []) piece_data = tt
put_block-length (a ∷ b ∷ []) piece_data = tt
put_block-length (a ∷ b ∷ c ∷ []) piece_data = tt
put_block-length (a ∷ b ∷ c ∷ d ∷ []) piece_data = tt
put_block-length (a ∷ b ∷ c ∷ d ∷ e ∷ []) piece_data = tt
put_block-length (a ∷ b ∷ c ∷ d ∷ e ∷ f ∷ []) piece_data = tt
put_block-length (a ∷ b ∷ c ∷ d ∷ e ∷ f ∷ g ∷ []) piece_data = tt

abbrev HasLength : ℕ → Bytes × List Incoming → Type 0
HasLength n r = length r.0 ≡ n

receive_blocks-length :
    (stream : List Incoming) (n : ℕ) (piece_data : Bytes)
    → OnOk (HasLength (length piece_data)) (receive_blocks stream n piece_data)
unfolding receive_blocks
receive_blocks-length stream zero piece_data = refl
receive_blocks-length [] (suc n) piece_data = tt
receive_blocks-length (timed_out ∷ stream) (suc n) piece_data = tt
receive_blocks-length (failed ∷ stream) (suc n) piece_data = tt
receive_blocks-length (message id none ∷ stream) (suc n) piece_data =
    receive_blocks-length stream (suc n) piece_data
receive_blocks-length (message id (some payload) ∷ stream) (suc n) piece_data =
    let P = HasLength (length piece_data) in
    if-Post P (λ e. Unit) (id == 7) _ _
      (bind-Post (λ (t : Bytes). length t ≡ length piece_data) P (λ e. Unit)
        (put_block payload piece_data) _ (put_block-length payload piece_data)
        (λ next e. rw e at (receive_blocks-length stream n next)))
      (receive_blocks-length stream (suc n) piece_data)

download_piece-length :
    (index n : ℕ) (c : Client)
    → OnOk (λ (r : Bytes × Client). length r.0 ≡ n) (download_piece index n c)
unfolding download_piece
download_piece-length index n c =
    bind-Post (HasLength (length (replicate n 0))) (λ (r : Bytes × Client). length r.0 ≡ n)
      (λ e. Unit) (receive_blocks c.incoming (blocks_of n) (replicate n 0)) _
      (receive_blocks-length c.incoming (blocks_of n) (replicate n 0))
      (λ r e. e ∙ length-replicate n 0)

module _ (sha1 : Bytes → Bytes) (hashes : Bytes) where
  -- A piece of this index and length
  abbrev IsPiece : ℕ → ℕ → Bytes → Type 0
  IsPiece index n s = (sha1 s ≡ hash_of hashes index) × (length s ≡ n)

  try_piece-IsPiece :
      (r : ℕ) (last : DownloadError) (index n : ℕ) (c : Client)
      → OnOk (λ (x : Bytes × Client). IsPiece index n x.0) (try_piece sha1 hashes r last index n c)
  unfolding try_piece
  try_piece-IsPiece zero last index n c = tt
  try_piece-IsPiece (suc r) last index n c =
      go (download_piece index n c) (download_piece-length index n c)
        (λ e d. try_piece-IsPiece r e index n d)
    where
      go :
          (o : Result ClientError (Bytes × Client))
          → OnOk (λ (x : Bytes × Client). length x.0 ≡ n) o
          → ((e : DownloadError) (d : Client)
              → OnOk
                  (λ (x : Bytes × Client). IsPiece index n x.0)
                  (try_piece sha1 hashes r e index n d))
          → OnOk
              (λ (x : Bytes × Client). IsPiece index n x.0)
              (elim o [
                | panic ↦ panic
                | err e ↦ try_piece sha1 hashes r (not_received e) index n (after_error index n c)
                | ok (piece_data, d) ↦
                    let again = try_piece sha1 hashes r wrong_hash index n d in
                    if ltb (length hashes) ((index + 1) * 20)
                    then panic
                    else if bytes_eq (sha1 piece_data) (hash_of hashes index)
                    then ok (piece_data, d)
                    else again
              ])
      go panic h ih = tt
      go (err e) h ih = ih (not_received e) (after_error index n c)
      go (ok (piece_data, d)) h ih =
          if-Post (λ (x : Bytes × Client). IsPiece index n x.0) (λ e. Unit)
            (ltb (length hashes) ((index + 1) * 20)) panic _ tt
            (elim (Bool-cases (bytes_eq (sha1 piece_data) (hash_of hashes index))) [
              | inl same ↦ rw same (eq_of_bytes_eq (sha1 piece_data) (hash_of hashes index) same, h)
              | inr other ↦ rw other (ih wrong_hash d)
            ])

-- The pieces one after the other
unfoldable pub joined : List Bytes → Bytes
joined [] = []
joined (s ∷ ss) = s ++ joined ss

-- Pieces of these lengths, with the torrent's hashes from the `i`-th on
unfoldable pub ArePieces : (Bytes → Bytes) → Bytes → ℕ → ℕ → ℕ → List Bytes → Type 0
ArePieces sha1 hashes total normal i [] = Unit
ArePieces sha1 hashes total normal i (s ∷ ss) =
    (sha1 s ≡ hash_of hashes i)
    × (length s ≡ piece_length total normal (piece_count total normal) i)
    × ArePieces sha1 hashes total normal (i + 1) ss

module _ (sha1 : Bytes → Bytes) (hashes : Bytes) (total normal : ℕ) where
  abbrev MadeOf : ℕ → ℕ → Bytes → Bytes × Client → Type 0
  MadeOf r i file_data x =
      (ps : List Bytes) × (length ps ≡ r)
      × (x.0 ≡ file_data ++ joined ps)
      × ArePieces sha1 hashes total normal i ps

  get_pieces-MadeOf :
      (r i : ℕ) (file_data : Bytes) (c : Client)
      → OnOk (MadeOf r i file_data) (get_pieces sha1 hashes r i total normal file_data c)
  unfolding get_pieces get_piece joined ArePieces
  get_pieces-MadeOf zero i file_data c = ([], refl, sym (append-nil file_data), tt)
  get_pieces-MadeOf (suc r) i file_data c =
      let n = piece_length total normal (piece_count total normal) i in
      bind-Post (λ (x : Bytes × Client). IsPiece sha1 hashes i n x.0) (MadeOf (suc r) i file_data)
        (λ e. Unit) (try_piece sha1 hashes 3 wrong_hash i n c) _
        (try_piece-IsPiece sha1 hashes 3 wrong_hash i n c)
        (λ (s, d) piece.
          more s piece (get_pieces sha1 hashes r (i + 1) total normal (file_data ++ s) d)
            (get_pieces-MadeOf r (i + 1) (file_data ++ s) d))
    where
      more :
          (s : Bytes)
          → IsPiece sha1 hashes i (piece_length total normal (piece_count total normal) i) s
          → (o : Result DownloadError (Bytes × Client)) → OnOk (MadeOf r (i + 1) (file_data ++ s)) o
          → OnOk (MadeOf (suc r) i file_data) o
      more s piece panic h = tt
      more s piece (err e) h = tt
      more s piece (ok x) (ps, count, made, are) = (
        s ∷ ps,
        ap suc count,
        made ∙ append_assoc file_data s (joined ps),
        (piece.0, piece.1, are),
      )

get_file-MadeOf :
    (sha1 : Bytes → Bytes) (hashes : Bytes) (total normal : ℕ) (c : Client)
    → OnOk
        (MadeOf sha1 hashes total normal (piece_count total normal) 0 [])
        (get_file sha1 hashes total normal c)
unfolding get_file
get_file-MadeOf sha1 hashes total normal c =
    if-Post (MadeOf sha1 hashes total normal (piece_count total normal) 0 []) (λ e. Unit)
      (normal == 0) panic _ tt
      (get_pieces-MadeOf sha1 hashes total normal (piece_count total normal) 0 [] c)

-- Whatever the peer sends, for a total length and a piece length whose sum less one is below 2^63: if
-- `File` returns data, it is one piece after the other, as many as the total length needs, each of its
-- length and with the torrent's hash for its index.
pub get_file-ArePieces :
    (sha1 : Bytes → Bytes) (hashes : Bytes) (total normal : ℕ) (c d : Client) (file_data : Bytes)
    → total + normal - 1 < int_bound
    → get_file sha1 hashes total normal c ≡ ok (file_data, d)
    → (ps : List Bytes) × (length ps ≡ (total + normal - 1) / normal)
      × (file_data ≡ joined ps)
      × ArePieces sha1 hashes total normal 0 ps
get_file-ArePieces sha1 hashes total normal c d file_data fits got =
    let w : OnOk {E = DownloadError}
        (MadeOf sha1 hashes total normal (piece_count total normal) 0 []) (ok (file_data, d)) =
      rw got at (get_file-MadeOf sha1 hashes total normal c) in
    let (ps, count, made, are) = w in (ps, count ∙ piece_count-fits total normal fits, made, are)
