-- ===== src/Torrent/Magnet/Links.antt =====
-- Magnet links with a hexadecimal info hash.
use bittorrent_client_go.Base.{
  lower_byte, length-map, take-front, drop-front, ℕ, zero, suc, ◌<◌, ◌≡◌, refl, ◌∙◌, ap, Option,
  some, List, [], ◌∷◌, ◌++◌, map, Bytes, bytes_eq_refl, codes, All, ◌==◌, length, length-append,
  take, drop, lookup, hex_encode, to_lower, hex_decode-hex_encode, length-hex_encode, ok, arith,
  true, false,
}
use bittorrent_client_go.Torrent.Magnet.{
  Query, values, first_or_empty, decode_hash, read_xt, parse_magnet,
}

take-map : (f : ℕ → ℕ) (n : ℕ) (s : Bytes) → take n (map f s) ≡ map f (take n s)
take-map f zero s = refl
take-map f (suc n) [] = refl
take-map f (suc n) (x ∷ s) = ap (λ t. f x ∷ t) (take-map f n s)

-- A link whose `xt` is `urn:btih:` in any case and the 40 hexadecimal digits of a hash of 20 bytes
-- gives that hash, and for the rest the values of its query, whatever the other parameters are.
pub parse_magnet-hex :
    (parse_url : Bytes → Option Query) (base32 : Bytes → Option Bytes) (uri urn hash : Bytes)
    (more : List Bytes) (query : Query)
    → parse_url uri ≡ some query
    → lookup (codes "xt") query ≡ some ((urn ++ hex_encode hash) ∷ more)
    → to_lower urn ≡ codes "urn:btih:"
    → length hash ≡ 20
    → All (λ b. b < 256) hash
    → parse_magnet parse_url base32 uri
      ≡ ok (record {
        info_hash = hash;
        info_hash_hex = hex_encode hash;
        name = first_or_empty (values (codes "dn") query);
        tracker_url = first_or_empty (values (codes "tr") query);
        tracker_urls = values (codes "tr") query;
      })
unfolding parse_magnet read_xt decode_hash to_lower
parse_magnet-hex parse_url base32 uri urn hash more query eu ex el eh hb =
    let xt = urn ++ hex_encode hash in
    let nine : length urn ≡ 9 = omega (arith, length-map urn lower_byte, ap length el) in
    let digits = length-hex_encode hash in
    let prefix : take 9 (to_lower xt) ≡ codes "urn:btih:" =
      take-map lower_byte 9 xt
      ∙ ap (map lower_byte) (take-front 9 urn (hex_encode hash) nine)
      ∙ el in
    let rest : drop 9 xt ≡ hex_encode hash = drop-front 9 urn (hex_encode hash) nine in
    let long : (length xt == 0) ≡ false = ground (arith, length-append urn (hex_encode hash)) in
    let forty : (length (hex_encode hash) == 40) ≡ true = ground arith in
    let decodes = hex_decode-hex_encode hash hb in
    let found : first_or_empty (values (codes "xt") query) ≡ xt = rw (ex, values) refl in
    rw (eu, parse_magnet)
      (rw found (rw (long, prefix, bytes_eq_refl (codes "urn:btih:"), rest, forty, decodes) refl))
