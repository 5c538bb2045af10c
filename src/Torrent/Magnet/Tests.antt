-- ===== src/Torrent/Magnet/Tests.antt =====
-- A magnet link of a file of six bytes, with functions in place of SHA-1 and of the hex encoding.
use bittorrent_client_go.Base.{
  ◌≡◌, refl, pos, Option, none, some, [], ◌∷◌, ◌++◌, Bytes, bytes_eq, bytes_gt, codes, length,
  replicate, hex_encode, lookup, to_lower, Result, ok, err, arith,
}
use bittorrent_client_go.Bencode.Number.{print_nat, print_int}
use bittorrent_client_go.Bencode.{str, int, dict, Fields, end, field, get, get_raw}
use bittorrent_client_go.Dht.Krpc.{encode}
use bittorrent_client_go.Dht.Krpc.Body.{IsCanonical}
use bittorrent_client_go.Torrent.{TorrentFile, ParseError, parse_data}
use bittorrent_client_go.Torrent.Magnet.{
  MagnetLink, Query, decode_hash, read_xt, parse_magnet, to_torrent_file, bad_length,
}
use bittorrent_client_go.Torrent.Magnet.Links.{parse_magnet-hex}
use bittorrent_client_go.Torrent.Magnet.Metadata.{value_of, to_torrent_file-parse_data}

abbrev twenty : Bytes
twenty = codes "0123456789abcdefghij"

abbrev some_query : Query
some_query =
    (codes "xt", (codes "URN:btih:" ++ hex_encode twenty) ∷ [])
    ∷ (codes "tr", codes "http://tracker" ∷ codes "udp://other" ∷ [])
    ∷ []

no_base32 : Bytes → Option Bytes
no_base32 s = none

always : Bytes → Option Query
unfolding hex_encode
always uri = some some_query

short_hash : read_xt always no_base32 (codes "urn:btih:1234") [] ≡ err bad_length
unfolding read_xt decode_hash to_lower bytes_eq
short_hash = refl

parse_magnet-hex_example :
    parse_magnet always no_base32 (codes "magnet:?xt=urn")
    ≡ ok (record {
      info_hash = twenty;
      info_hash_hex = hex_encode twenty;
      name = [];
      tracker_url = codes "http://tracker";
      tracker_urls = codes "http://tracker" ∷ codes "udp://other" ∷ [];
    })
unfolding always lookup bytes_eq to_lower hex_encode
parse_magnet-hex_example =
    parse_magnet-hex always no_base32 (codes "magnet:?xt=urn") (codes "URN:btih:") twenty []
      some_query refl refl refl refl (omega arith)

abbrev six_bytes : Fields
six_bytes = field (codes "length") (int (pos 6)) (
    field (codes "name") (str (codes "six")) (
      field (codes "piece length") (int (pos 4))
        (field (codes "pieces") (str (replicate 40 7)) end)))

abbrev torrent : Fields
torrent =
    field (codes "announce") (str (codes "http://tracker"))
      (field (codes "info") (dict six_bytes) end)

abbrev checksum : Bytes → Bytes
checksum s = replicate 20 (length s)

abbrev twice : Bytes → Bytes
twice s = s ++ s

abbrev link : MagnetLink
link = record {
  info_hash = checksum (encode (dict six_bytes));
  info_hash_hex = twice (checksum (encode (dict six_bytes)));
  name = [];
  tracker_url = codes "http://tracker";
  tracker_urls = codes "http://tracker" ∷ [];
}

to_torrent_file-parse_data_example :
    (found : Result ParseError TorrentFile) × (to_torrent_file checksum twice link
        (encode (dict six_bytes))
      ≡ some found)
    × (value_of found ≡ value_of (parse_data checksum twice (encode (dict torrent))))
unfolding IsCanonical encode get get_raw print_nat print_int bytes_gt bytes_eq
to_torrent_file-parse_data_example =
    to_torrent_file-parse_data checksum twice torrent six_bytes (codes "http://tracker") link
      (
        (refl, tt),
        tt,
        (
          tt,
          (
            (refl, (refl, (refl, tt))),
            omega arith,
            ((refl, (refl, tt)), tt, ((refl, tt), omega arith, (tt, tt, tt))),
          ),
          tt,
        ),
      )
      (omega arith) (omega arith) refl refl refl refl
