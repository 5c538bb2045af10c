-- ===== src/Download/Manager/Stored.antt =====
-- The file after the storage thread has written the pieces that it was sent.
use native.Mathlib.Nat.{lt-div-mul-add, mul-le-mul_right, div-mul-le_self}
use bittorrent_client_go.Base.{
  ℕ, ◌+◌, ◌-◌, ◌*◌, ◌≤◌, ◌<◌, ◌≡◌, refl, sym, ap, ◌∙◌, true, false, Bool-cases, inl, inr, ◌⊎◌, some,
  List, [], ◌∷◌, append-nil, Bytes, ltb, leb, ◌==◌, ◌&&◌, length, All, length-take, length-drop,
  length-copy_at, copy_at, arith, if◌then◌else◌, take, drop, get_elem?, get_elem?-copy_at,
  get_elem?-take, get_elem?-drop, eq_of_elems,
}
use bittorrent_client_go.Base.Sorter.{Sorter}
use bittorrent_client_go.Download.Picker.{piece_count, piece_length}
use bittorrent_client_go.Download.Picker.Pieces.{piece_count-cases}
use bittorrent_client_go.Download.Manager.{PieceWrite, TorrentManager, new_torrent_manager, hash_of}
use bittorrent_client_go.Download.Manager.Run.{Event, run, write_at, storage_loop}
use bittorrent_client_go.Download.Manager.Verified.{IsVerified, run-new_torrent_manager-IsVerified}

write_at-inside :
    (o : ℕ) (file bytes : Bytes)
    → o + length bytes ≤ length file
    → write_at o file bytes ≡ copy_at o file bytes
unfolding write_at
write_at-inside o file bytes h =
    let none_more : o + length bytes - length file ≡ 0 = omega arith in
    rw none_more (ap (λ f. copy_at o f bytes) (append-nil file))

-- A part of the file is what it was, or what was written, index by index.
slice-copy_at :
    (o n : ℕ) (file bytes part : Bytes) (from : ℕ)
    → o + n ≤ length file
    → length part ≡ n
    → ((i : ℕ)
        → i < n
        → get_elem? part i ≡ (
            if leb from (o + i) && ltb (o + i) (from + length bytes)
            then get_elem? bytes (o + i - from)
            else get_elem? file (o + i)))
    → take n (drop o (copy_at from file bytes)) ≡ part
slice-copy_at o n file bytes part from inside size h =
    let whole : length (copy_at from file bytes) ≡ length file = length-copy_at from file bytes in
    let rest = length-drop o (copy_at from file bytes) in
    let cut = length-take n (drop o (copy_at from file bytes)) in
    let long : length (take n (drop o (copy_at from file bytes))) ≡ n = omega arith in
    eq_of_elems (take n (drop o (copy_at from file bytes))) part (long ∙ sym size) (λ i less.
      let small : i < n = omega arith in
      get_elem?-take n (drop o (copy_at from file bytes)) i small
      ∙ get_elem?-drop o (copy_at from file bytes) i
      ∙ get_elem?-copy_at from file bytes (o + i) (omega arith)
      ∙ sym (h i small))

slice-written :
    (o : ℕ) (file bytes : Bytes)
    → o + length bytes ≤ length file
    → take (length bytes) (drop o (write_at o file bytes)) ≡ bytes
slice-written o file bytes inside =
    ap (λ f. take (length bytes) (drop o f)) (write_at-inside o file bytes inside)
    ∙ slice-copy_at o (length bytes) file bytes bytes o inside refl (λ i less.
      let at : o + i - o ≡ i = omega arith in
      let low : leb o (o + i) ≡ true = ground arith in
      let high : ltb (o + i) (o + length bytes) ≡ true = ground arith in rw (at, low, high) refl)

slice-other :
    (o n from : ℕ) (file bytes : Bytes)
    → from + length bytes ≤ length file
    → o + n ≤ length file
    → (o + n ≤ from) ⊎ (from + length bytes ≤ o)
    → take n (drop o (write_at from file bytes)) ≡ take n (drop o file)
slice-other o n from file bytes inside within apart =
    let rest = length-drop o file in
    let cut = length-take n (drop o file) in
    let long : length (take n (drop o file)) ≡ n = omega arith in
    ap (λ f. take n (drop o f)) (write_at-inside from file bytes inside)
    ∙ slice-copy_at o n file bytes (take n (drop o file)) from within long (λ i less.
      let out : (leb from (o + i) && ltb (o + i) (from + length bytes)) ≡ false = elim apart [
        | inl before ↦ ground arith
        | inr after ↦ ground arith
      ] in
      rw out (get_elem?-take n (drop o file) i less ∙ get_elem?-drop o file i))

module _ (sha1 : Bytes → Bytes) (hashes : Bytes) (total normal : ℕ) (positive : 0 < normal)
    (fits : length hashes ≡ 20 * piece_count total normal) where
  abbrev count : ℕ
  count = piece_count total normal

  -- The part of a file that a piece has
  abbrev part_of : ℕ → Bytes → Bytes
  part_of index file = take (piece_length total normal count index) (drop (index * normal) file)

  abbrev GoodAt : Bytes → ℕ → Type 0
  GoodAt file index = sha1 (part_of index file) ≡ hash_of hashes index

  count_bounds : 0 < count → (total ≤ count * normal) × (count * normal ≤ total + normal - 1)
  count_bounds some_piece = elim (piece_count-cases total normal) [
    | inl exact ↦ rw exact (
      omega (arith, lt-div-mul-add {a = total + normal - 1} {b = normal} positive),
      div-mul-le_self (total + normal - 1) normal,
    )
    | inr nothing ↦ absurd (omega arith)
  ]

  later : (i j : ℕ) → i < j → i * normal + normal ≤ j * normal
  later i j h =
      let less : i + 1 ≤ j = omega arith in
      omega (arith, mul-le-mul_right {m = i + 1} {n = j} normal less)

  piece_length-bounds :
      (i : ℕ)
      → i < count
      → (piece_length total normal count i ≤ normal)
        × (i * normal + piece_length total normal count i ≤ total)
  unfolding piece_length
  piece_length-bounds i h =
      let (up, down) = count_bounds (omega arith) in
      elim (Bool-cases (i + 1 == count)) [
        | inl e ↦
            let last : i + 1 ≡ count = ground arith in
            let top : (i + 1) * normal ≡ count * normal = ap (λ k. k * normal) last in
            rw e (omega (arith, top), omega (arith, top))
        | inr e ↦
            let early : i + 1 < count = ground arith in
            let w = later (i + 1) count early in rw e (omega arith, omega arith)
      ]

  in_count : (w : PieceWrite) → IsVerified sha1 hashes total normal w → w.index < count
  in_count w v = omega (arith, v.in_hashes, fits)

  length-write_at :
      (w : PieceWrite) (file : Bytes)
      → length file ≡ total
      → IsVerified sha1 hashes total normal w
      → length (write_at (w.index * normal) file w.bytes) ≡ total
  length-write_at w file size v =
      let (small, inside) = piece_length-bounds w.index (in_count w v) in
      ap length (write_at-inside (w.index * normal) file w.bytes (omega (arith, v.size, size)))
      ∙ length-copy_at (w.index * normal) file w.bytes
      ∙ size

  write_at-GoodAt :
      (w : PieceWrite) (file : Bytes)
      → length file ≡ total
      → IsVerified sha1 hashes total normal w
      → GoodAt (write_at (w.index * normal) file w.bytes) w.index
  write_at-GoodAt w file size v =
      let (small, inside) = piece_length-bounds w.index (in_count w v) in
      let written = slice-written (w.index * normal) file w.bytes (omega (arith, v.size, size)) in
      ap sha1 (rw v.size at written) ∙ v.digest

  write_at-keeps :
      (w : PieceWrite) (file : Bytes) (index : ℕ)
      → length file ≡ total
      → IsVerified sha1 hashes total normal w
      → index < count
      → GoodAt file index
      → GoodAt (write_at (w.index * normal) file w.bytes) index
  write_at-keeps w file index size v known good = elim (Bool-cases (index == w.index)) [
    | inl e ↦ let same : index ≡ w.index = ground arith in rw same (write_at-GoodAt w file size v)
    | inr e ↦
        let (small, inside) = piece_length-bounds w.index (in_count w v) in
        let (short, within) = piece_length-bounds index known in
        let n = piece_length total normal count index in
        let apart : (index * normal + n ≤ w.index * normal)
            ⊎ (w.index * normal + length w.bytes ≤ index * normal) =
          elim (Bool-cases (ltb index w.index)) [
            | inl before ↦
                let room = later index w.index (ground arith) in inl (omega (arith, room, short))
            | inr after ↦
                let room = later w.index index (ground arith) in
                inr (omega (arith, room, small, v.size))
          ] in
        ap sha1 (
          slice-other (index * normal) n (w.index * normal) file w.bytes
            (omega (arith, inside, v.size, size)) (omega (arith, within, size)) apart)
        ∙ good
  ]

  storage_loop-keeps :
      (ws : List PieceWrite) (file : Bytes) (index : ℕ)
      → length file ≡ total
      → All (IsVerified sha1 hashes total normal) ws
      → index < count
      → GoodAt file index
      → GoodAt (storage_loop normal ws file) index
  unfolding storage_loop
  storage_loop-keeps [] file index size all known good = good
  storage_loop-keeps (w ∷ ws) file index size (v, all) known good =
      storage_loop-keeps ws (write_at (w.index * normal) file w.bytes) index
        (length-write_at w file size v) all known (write_at-keeps w file index size v known good)

  storage_loop-GoodAt :
      (ws : List PieceWrite) (file : Bytes)
      → length file ≡ total
      → All (IsVerified sha1 hashes total normal) ws
      → All (λ w. GoodAt (storage_loop normal ws file) w.index) ws
  unfolding storage_loop
  storage_loop-GoodAt [] file size all = tt
  storage_loop-GoodAt (w ∷ ws) file size (v, all) =
      let next = write_at (w.index * normal) file w.bytes in
      let long = length-write_at w file size v in
      (
        storage_loop-keeps ws next w.index long all (in_count w v) (write_at-GoodAt w file size v),
        storage_loop-GoodAt ws next long all,
      )

  -- Of a torrent with a positive piece length and one hash for each piece: after any events, with the
  -- pieces that were sent written one after the other into a file of the total length, the file has
  -- at the place of each of those pieces bytes with the torrent's hash for that piece.
  pub storage_loop-verified :
      (sorter : Sorter) (events : List Event) (start tm : TorrentManager) (file : Bytes)
      → new_torrent_manager hashes total normal ≡ some start
      → run sha1 sorter events start ≡ some tm
      → length file ≡ total
      → All
          (λ w.
            sha1 (
              take
                (piece_length total normal (piece_count total normal) w.index)
                (drop (w.index * normal) (storage_loop normal tm.writes file)))
            ≡ hash_of hashes w.index)
          tm.writes
  storage_loop-verified sorter events start tm file new ran size =
      storage_loop-GoodAt tm.writes file size
        (run-new_torrent_manager-IsVerified sha1 sorter hashes total normal events start tm new ran)
