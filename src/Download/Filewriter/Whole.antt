-- ===== src/Download/Filewriter/Whole.antt =====
-- What is written of data that the files share out.
use bittorrent_client_go.Base.{
  ℕ, ◌+◌, ◌-◌, ◌≤◌, ◌<◌, ◌≡◌, refl, sym, ap, ◌∙◌, pos, int_bound, Bool, true, false, List, [], ◌∷◌,
  ◌++◌, map, Bytes, ltb, leb, length, take, drop, drop_past, drop-drop, take-append-drop,
  append_assoc, arith, All, append-nil, ok, Option, some,
}
use bittorrent_client_go.Torrent.{FileEntry, TorrentFile}
use bittorrent_client_go.Seeder.Storage.{read_path, read_files}
use bittorrent_client_go.Download.Filewriter.{Ending, completed, write_each, write_files}

-- Files of these lengths and paths
abbrev pub entry_of : ℕ × List Bytes → FileEntry
entry_of (n, path) = record { length = pos n; path = path }

unfoldable pub sum_of : List (ℕ × List Bytes) → ℕ
sum_of [] = 0
sum_of ((n, path) ∷ es) = n + sum_of es

module _ (join : List Bytes → Bytes) (parent : Bytes → Bytes) (can_make can_write : Bytes → Bool)
    (makes : (dir : Bytes) → can_make dir ≡ true)
    (writes : (path : Bytes) → can_write path ≡ true) where
  -- The first file, and the others from its end on
  write_each-step :
      (base : Bytes) (offset n : ℕ) (path : List Bytes) (data_bytes : Bytes)
      (files : List FileEntry)
      → length data_bytes < int_bound
      → offset + n ≤ length data_bytes
      → let rest = write_each join parent can_make can_write base (offset + n) data_bytes files in
        write_each join parent can_make can_write base offset data_bytes
          (entry_of (n, path) ∷ files)
        ≡ ((join (base ∷ path), take n (drop offset data_bytes)) ∷ rest.0, rest.1)
  unfolding write_each
  write_each-step base offset n path data_bytes files small fits =
      let no_wrap : leb int_bound (offset + n) ≡ false = ground arith in
      let inside : ltb (length data_bytes) (offset + n) ≡ false = ground arith in
      let size : offset + n - offset ≡ n = omega arith in
      let made = makes (parent (join (base ∷ path))) in
      let written = writes (join (base ∷ path)) in
      rw (no_wrap, made) (rw inside (rw (written, size) refl))

  write_each-read_files :
      (read_file : Bytes → Option Bytes) (base : Bytes) (offset : ℕ) (data_bytes raw_data : Bytes)
      (es : List (ℕ × List Bytes))
      → length data_bytes < int_bound
      → offset + sum_of es ≡ length data_bytes
      → let r =
          write_each join parent can_make can_write base offset data_bytes (map entry_of es) in
        All (λ (w : Bytes × Bytes). read_file w.0 ≡ some w.1) r.0
        → (r.1 ≡ completed)
          × (read_files read_file join base (map entry_of es) raw_data
              ≡ ok (raw_data ++ drop offset data_bytes))
  unfolding write_each read_files sum_of
  write_each-read_files read_file base offset data_bytes raw_data [] small e kept =
      let past = drop_past offset data_bytes (omega (arith, e)) in
      (refl, rw past (ap ok (sym (append-nil raw_data))))
  write_each-read_files read_file base offset data_bytes raw_data ((n, path) ∷ es) small e kept =
      let fits : offset + n ≤ length data_bytes = omega (arith, e) in
      let step = write_each-step base offset n path data_bytes (map entry_of es) small fits in
      let (here, later) = rw step at kept in
      let part = take n (drop offset data_bytes) in
      let (ends, reads) =
        write_each-read_files read_file base (offset + n) data_bytes (raw_data ++ part) es small
          (omega (arith, e)) later in
      let split : part ++ drop (offset + n) data_bytes ≡ drop offset data_bytes =
        ap (λ t. part ++ t) (sym (drop-drop offset n data_bytes))
        ∙ take-append-drop n (drop offset data_bytes) in
      (
        ap (λ (r : List (Bytes × Bytes) × Ending). r.1) step ∙ ends,
        rw (here, read_path)
            (reads
              ∙ ap ok (
                  append_assoc raw_data part (drop (offset + n) data_bytes)
                  ∙ ap (λ t. raw_data ++ t) split)),
      )

  -- Where directories are made and files are written, and the lengths of the files are not negative and
  -- add up to the length of the data, below 2^63: `WriteFiles` completes, and if each path then reads
  -- as what was written to it, the seeder's reading of the same files gives the data back.
  pub write_files-read_files :
      (read_file : Bytes → Option Bytes) (output_dir : Bytes) (tf : TorrentFile)
      (data_bytes : Bytes) (es : List (ℕ × List Bytes))
      → tf.files ≡ map entry_of es
      → length data_bytes < int_bound
      → sum_of es ≡ length data_bytes
      → All
          (λ (w : Bytes × Bytes). read_file w.0 ≡ some w.1)
          (write_files join parent can_make can_write output_dir tf data_bytes).0
      → ((write_files join parent can_make can_write output_dir tf data_bytes).1 ≡ completed)
        × (read_files read_file join (join (output_dir ∷ tf.name ∷ [])) tf.files [] ≡ ok data_bytes)
  unfolding write_files
  write_files-read_files read_file output_dir tf data_bytes es files small sum kept =
      let base = join (output_dir ∷ tf.name ∷ []) in
      let kept' : All (λ (w : Bytes × Bytes). read_file w.0 ≡ some w.1)
          (write_each join parent can_make can_write base 0 data_bytes (map entry_of es)).0 =
        rw files at kept in
      rw files
        (write_each-read_files read_file base 0 data_bytes [] es small (omega (arith, sum)) kept')
