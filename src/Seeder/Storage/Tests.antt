-- ===== src/Seeder/Storage/Tests.antt =====
-- Six bytes in pieces of four, with the bytes' first letter twenty times as their hash.
use bittorrent_client_go.Base.{
  ◌≡◌, refl, pos, Bytes, [], ◌∷◌, codes, bytes_eq, replicate, get_or, ltb, ok, arith,
}
use bittorrent_client_go.Download.Picker.Choose.{has_bit}
use bittorrent_client_go.Seeder.Storage.{slice, set_bits, build_bitfield, split_pieces, all_pieces}
use bittorrent_client_go.Seeder.Storage.Bitfield.{has_bit-build_bitfield}
use bittorrent_client_go.Seeder.Storage.Pieces.{joined, HaveHashes, all_pieces_lem}

abbrev first_letter : Bytes → Bytes
first_letter piece = replicate 20 (get_or piece 0 0)

abbrev letters : Bytes
letters = codes "aaaaaaaaaaaaaaaaaaaaeeeeeeeeeeeeeeeeeeee"

bitfield_of_ten : build_bitfield 10 ≡ 255 ∷ 192 ∷ []
unfolding build_bitfield set_bits
bitfield_of_ten = refl

split_six :
    all_pieces first_letter (pos 4) letters (codes "abcdef") ≡ ok (codes "abcd" ∷ codes "ef" ∷ [])
unfolding all_pieces split_pieces slice bytes_eq
split_six = refl

has_bit-build_bitfield_example : has_bit (build_bitfield 10) 9 ≡ ltb 9 10
has_bit-build_bitfield_example = has_bit-build_bitfield 10 9

all_pieces_lem_example :
    (joined (codes "abcd" ∷ codes "ef" ∷ []) ≡ codes "abcdef")
    × HaveHashes first_letter letters 0 (codes "abcd" ∷ codes "ef" ∷ [])
all_pieces_lem_example =
    all_pieces_lem first_letter 4 letters (codes "abcdef") (codes "abcd" ∷ codes "ef" ∷ [])
      (omega arith) (omega arith) split_six
