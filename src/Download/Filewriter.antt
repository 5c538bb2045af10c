-- ===== src/Download/Filewriter.antt =====
-- download/filewriter.go: the data of a torrent of several files, split over them. Joining paths, the
-- parent of a path, and whether a directory is made and a file written are arguments.
pub mod Whole
mod Tests
use bittorrent_client_go.Base.{
  ℕ, ◌+◌, ◌-◌, ◌^◌, ℤ, pos, negsuc, int_bound, Bool, true, false, not, Option, none, some, List, [],
  ◌∷◌, ◌++◌, Bytes, ltb, leb, if◌then◌else◌, length, take, drop,
}
use bittorrent_client_go.Torrent.{FileEntry, TorrentFile}

pub data WriteError : Type 0 where
  creating_directory : Bytes → WriteError
  writing : Bytes → WriteError

-- How a call ends
pub data Ending : Type 0 where
  completed panics : Ending
  fails : WriteError → Ending

-- `end` for a file of this length, at most the end of the data; `none` where the slice up to it
-- panics: the length is negative, or the sum wraps to a negative number.
abbrev pub end_of : ℕ → ℤ → Bytes → Option ℕ
end_of offset (negsuc n) data_bytes = none
end_of offset (pos n) data_bytes =
    if leb int_bound (offset + n)
    then none
    else some (if ltb (length data_bytes) (offset + n) then length data_bytes else offset + n)

module _ (join : List Bytes → Bytes) (parent : Bytes → Bytes)
    (can_make can_write : Bytes → Bool) where
  -- The loop of `WriteFiles`: the files that are written, with their content, and how it ends
  unfoldable pub write_each : Bytes → ℕ → Bytes → List FileEntry → List (Bytes × Bytes) × Ending
  write_each base_dir offset data_bytes [] = ([], completed)
  write_each base_dir offset data_bytes (f ∷ files) =
      let file_path = join (base_dir ∷ f.path) in
      let dir = parent file_path in
      let sliced : List (Bytes × Bytes) × Ending = elim (end_of offset f.length data_bytes) [
        | none ↦ ([], panics)
        | some end ↦
            let file_data = take (end - offset) (drop offset data_bytes) in
            let (written, ending) = write_each base_dir end data_bytes files in
            if can_write file_path
            then ((file_path, file_data) ∷ written, ending)
            else ([], fails (writing file_path))
      ] in
      if can_make dir then sliced else ([], fails (creating_directory dir))

  -- `WriteFiles`
  unfoldable pub write_files : Bytes → TorrentFile → Bytes → List (Bytes × Bytes) × Ending
  unfolding write_each
  write_files output_dir tf data_bytes =
      write_each (join (output_dir ∷ tf.name ∷ [])) 0 data_bytes tf.files
