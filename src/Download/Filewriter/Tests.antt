-- ===== src/Download/Filewriter/Tests.antt =====
-- Five bytes in two files.
use bittorrent_client_go.Base.{
  ℕ, ◌≡◌, refl, pos, negsuc, true, Bool, List, [], ◌∷◌, ◌++◌, map, Bytes, codes, lookup, bytes_eq,
  ok, arith,
}
use bittorrent_client_go.Torrent.{TorrentFile}
use bittorrent_client_go.Seeder.Storage.{read_files}
use bittorrent_client_go.Download.Filewriter.{completed, panics, write_each, write_files}
use bittorrent_client_go.Download.Filewriter.Whole.{entry_of, sum_of, write_files-read_files}

unfoldable join : List Bytes → Bytes
join [] = []
join (p ∷ []) = p
join (p ∷ q ∷ ps) = p ++ (b'/' ∷ join (q ∷ ps))

abbrev always : Bytes → Bool
always path = true

abbrev entries : List (ℕ × List Bytes)
entries = (3, codes "a" ∷ []) ∷ (2, codes "b" ∷ codes "c" ∷ []) ∷ []

abbrev torrent : TorrentFile
torrent = record {
  announce = [];
  info_hash = [];
  info_hash_hex = [];
  piece_length = pos 4;
  length = pos 5;
  name = codes "name";
  pieces = [];
  files = map entry_of entries;
  is_multi_file = true;
}

negative_length :
    write_each join
      (λ p. p)
      always
      always
      (codes "out")
      0
      (codes "hello")
      (record { length = negsuc 0; path = [] } ∷ [])
    ≡ ([], panics)
unfolding write_each
negative_length = refl

abbrev disk : List (Bytes × Bytes)
disk = (codes "out/name/a", codes "hel") ∷ (codes "out/name/b/c", codes "lo") ∷ []

all_written :
    write_files join (λ p. p) always always (codes "out") torrent (codes "hello")
    ≡ (disk, completed)
unfolding write_files join
all_written = refl

write_files-read_files_example :
    ((write_files join (λ p. p) always always (codes "out") torrent (codes "hello")).1 ≡ completed)
    × (read_files
          (λ p. lookup p disk)
          join
          (join (codes "out" ∷ codes "name" ∷ []))
          torrent.files
          []
        ≡ ok (codes "hello"))
unfolding write_files join lookup bytes_eq sum_of
write_files-read_files_example =
    write_files-read_files join (λ p. p) always always (λ p. refl) (λ p. refl) (λ p. lookup p disk)
      (codes "out") torrent (codes "hello") entries refl (omega arith) refl (refl, (refl, tt))
