-- ===== src/Torrent/Tests.antt =====
-- A torrent of a file of six bytes, with functions in place of SHA-1 and of the hex encoding.
use bittorrent_client_go.Base.{
  ◌≡◌, refl, pos, negsuc, false, [], ◌++◌, Bytes, codes, bytes_gt, bytes_eq, length, replicate, ok,
  err, arith,
}
use bittorrent_client_go.Bencode.Number.{print_nat, print_int}
use bittorrent_client_go.Bencode.{str, int, list, dict, nil, cons, Fields, end, field, get, get_raw}
use bittorrent_client_go.Dht.Krpc.{encode}
use bittorrent_client_go.Dht.Krpc.Body.{IsCanonical}
use bittorrent_client_go.Torrent.{
  bad_path, read_entries, read_entry, read_path_list, add_int, parse_data,
}
use bittorrent_client_go.Torrent.InfoHash.{parse_data-encode}

abbrev six_bytes : Fields
six_bytes = field (codes "length") (int (pos 6)) (
    field (codes "name") (str (codes "six")) (
      field (codes "piece length") (int (pos 4))
        (field (codes "pieces") (str (replicate 40 7)) end)))

abbrev torrent : Fields
torrent =
    field (codes "announce") (str (codes "http://tracker"))
      (field (codes "info") (dict six_bytes) end)

abbrev checksum : Bytes → Bytes
checksum s = replicate 20 (length s)

abbrev tens : Bytes → Bytes
tens s = s ++ s

wrapped : add_int (pos 9223372036854775807) (pos 1) ≡ negsuc 9223372036854775807
unfolding add_int
wrapped = refl

no_text :
    read_entries (pos 0) (
      cons
        (dict (
          field
            (codes "length")
            (int (pos 1))
            (field (codes "path") (list (cons (int (pos 1)) nil)) end)))
        nil)
    ≡ err bad_path
unfolding read_entries read_entry read_path_list get bytes_eq
no_text = refl

parse_data-encode_example :
    parse_data checksum tens (encode (dict torrent))
    ≡ ok (record {
      announce = codes "http://tracker";
      info_hash = checksum (encode (dict six_bytes));
      info_hash_hex = tens (checksum (encode (dict six_bytes)));
      piece_length = pos 4;
      length = pos 6;
      name = codes "six";
      pieces = replicate 40 7;
      files = [];
      is_multi_file = false;
    })
unfolding IsCanonical encode get get_raw print_nat print_int bytes_gt bytes_eq
parse_data-encode_example =
    parse_data-encode checksum tens torrent six_bytes (codes "http://tracker") (replicate 40 7)
      (pos 4) (pos 6)
      (
        (refl, tt),
        tt,
        (
          tt,
          (
            (refl, (refl, (refl, tt))),
            omega arith,
            ((refl, (refl, tt)), tt, ((refl, tt), omega arith, (tt, tt, tt))),
          ),
          tt,
        ),
      )
      (omega arith) refl refl refl refl refl refl
