-- ===== src/Peer/Handshake/Wire.antt =====
-- What both ends read of a handshake, whoever sent it: each takes 68 bytes and looks at the flags, the
-- info hash and the peer ID only.
use Prim.Native.Nat.{bit_and}
use bittorrent_client_go.Base.{
  take-front, drop-front, take_all, append-nil, ℕ, zero, suc, ◌+◌, ◌-◌, ◌/◌, ◌%◌, ◌<◌, ◌≡◌, refl,
  sym, ap, ◌∙◌, Bool, true, false, not, [], ◌∷◌, ◌++◌, Bytes, ◌==◌, if◌then◌else◌, get_or, length,
  length-append, take, drop, replicate, ok, arith, holds_below, holds_below_sound,
}
use bittorrent_client_go.Peer.Message.{read_full}
use bittorrent_client_go.Peer.Message.RoundTrip.{read_full-append}
use bittorrent_client_go.Peer.Handshake.{
  protocol, own_id, build_handshake, read_answer, do_handshake, receive_handshake,
}

-- The parts of a handshake: the protocol and its length, five bytes of flags, the one with the extension
-- bit, two more, the info hash, and the peer's ID.
pub record Hello : Type 0 where
  pub name : Bytes
  pub five : Bytes
  pub flags : ℕ
  pub two : Bytes
  pub info_hash : Bytes
  pub peer_id : Bytes

abbrev pub hello_bytes : Hello → Bytes
hello_bytes h = h.name ++ (h.five ++ (h.flags ∷ (h.two ++ (h.info_hash ++ h.peer_id))))

-- The parts have the sizes that the protocol gives them.
pub record IsHello (h : Hello) : Type 0 where
  pub name_size : length h.name ≡ 20
  pub five_size : length h.five ≡ 5
  pub flags_byte : h.flags < 256
  pub two_size : length h.two ≡ 2
  pub hash_size : length h.info_hash ≡ 20
  pub id_size : length h.peer_id ≡ 20

drop_past : (m k : ℕ) (xs ys : Bytes) → length xs ≡ m → drop (m + k) (xs ++ ys) ≡ drop k ys
drop_past zero k [] ys e = let n : 0 + k ≡ k = omega arith in rw n refl
drop_past zero k (x ∷ xs) ys e = absurd (omega arith)
drop_past (suc m) k [] ys e = absurd (omega arith)
drop_past (suc m) k (x ∷ xs) ys e =
    let n : suc m + k ≡ suc (m + k) = omega arith in rw n (drop_past m k xs ys (omega arith))

get_or_past :
    (m k : ℕ) (xs ys : Bytes) → length xs ≡ m → get_or (xs ++ ys) (m + k) 0 ≡ get_or ys k 0
get_or_past zero k [] ys e = let n : 0 + k ≡ k = omega arith in rw n refl
get_or_past zero k (x ∷ xs) ys e = absurd (omega arith)
get_or_past (suc m) k [] ys e = absurd (omega arith)
get_or_past (suc m) k (x ∷ xs) ys e =
    let n : suc m + k ≡ suc (m + k) = omega arith in rw n (get_or_past m k xs ys (omega arith))

length-hello_bytes : (h : Hello) → IsHello h → length (hello_bytes h) ≡ 68
length-hello_bytes h s = omega (
  arith,
  s.name_size,
  s.five_size,
  s.two_size,
  s.hash_size,
  s.id_size,
  length-append h.name (h.five ++ (h.flags ∷ (h.two ++ (h.info_hash ++ h.peer_id)))),
  length-append h.five (h.flags ∷ (h.two ++ (h.info_hash ++ h.peer_id))),
  length-append h.two (h.info_hash ++ h.peer_id),
  length-append h.info_hash h.peer_id,
)

hash_of_hello : (h : Hello) → IsHello h → take 20 (drop 28 (hello_bytes h)) ≡ h.info_hash
hash_of_hello h s =
    let after = h.two ++ (h.info_hash ++ h.peer_id) in
    ap (take 20) (
      drop_past 20 8 h.name (h.five ++ (h.flags ∷ after)) s.name_size
      ∙ drop_past 5 3 h.five (h.flags ∷ after) s.five_size
      ∙ drop-front 2 h.two (h.info_hash ++ h.peer_id) s.two_size)
    ∙ take-front 20 h.info_hash h.peer_id s.hash_size

id_of_hello : (h : Hello) → IsHello h → take 20 (drop 48 (hello_bytes h)) ≡ h.peer_id
id_of_hello h s =
    let after = h.two ++ (h.info_hash ++ h.peer_id) in
    ap (take 20) (
      drop_past 20 28 h.name (h.five ++ (h.flags ∷ after)) s.name_size
      ∙ drop_past 5 23 h.five (h.flags ∷ after) s.five_size
      ∙ drop_past 2 20 h.two (h.info_hash ++ h.peer_id) s.two_size
      ∙ drop-front 20 h.info_hash h.peer_id s.hash_size)
    ∙ take_all 20 h.peer_id s.id_size

flags_of_hello : (h : Hello) → IsHello h → get_or (hello_bytes h) 25 0 ≡ h.flags
flags_of_hello h s =
    let after = h.two ++ (h.info_hash ++ h.peer_id) in
    get_or_past 20 5 h.name (h.five ++ (h.flags ∷ after)) s.name_size
    ∙ get_or_past 5 0 h.five (h.flags ∷ after) s.five_size

bool_same : (a b : Bool) → (if a then b else not b) ≡ true → a ≡ b
bool_same true b e = sym e
bool_same false true e = e
bool_same false false e = refl

bit_table :
    holds_below 256
      (λ n. if not (bit_and n 0x10 == 0) then n / 16 % 2 == 1 else not (n / 16 % 2 == 1))
    ≡ true
unfolding holds_below
bit_table = refl

bit_four : (n : ℕ) → n < 256 → not (bit_and n 0x10 == 0) ≡ (n / 16 % 2 == 1)
bit_four n h = bool_same _ _ (holds_below_sound 256 _ n bit_table h)

pub do_handshake-hello_bytes :
    (h : Hello) (rest : Bytes)
    → IsHello h
    → (do_handshake (hello_bytes h ++ rest)
        ≡ ok (record { peer_id = h.peer_id; extensions = h.flags / 16 % 2 == 1 }, rest))
      × (receive_handshake (hello_bytes h ++ rest)
          ≡ ok (record { info_hash = h.info_hash; peer_id = h.peer_id }, rest))
unfolding do_handshake receive_handshake read_answer
do_handshake-hello_bytes h rest s =
    let whole : read_full 68 (hello_bytes h ++ rest) ≡ ok (hello_bytes h, rest) =
      read_full-append (hello_bytes h) rest 68 (sym (length-hello_bytes h s)) in
    (
      rw (whole, id_of_hello h s, flags_of_hello h s, bit_four h.flags s.flags_byte) refl,
      rw (whole, id_of_hello h s, hash_of_hello h s) refl,
    )

-- What this client sends is such a handshake, with its own ID.
abbrev own_hello : Bytes → Bool → Hello
own_hello info_hash extensions = record {
  name = 19 ∷ protocol;
  five = replicate 5 0;
  flags = if extensions then 0x10 else 0;
  two = 0 ∷ 0 ∷ [];
  info_hash = info_hash;
  peer_id = own_id;
}

own_hello-IsHello : (hash : Bytes) (ext : Bool) → length hash ≡ 20 → IsHello (own_hello hash ext)
own_hello-IsHello hash true e = record {
  name_size = refl;
  five_size = refl;
  flags_byte = omega arith;
  two_size = refl;
  hash_size = e;
  id_size = refl;
}
own_hello-IsHello hash false e = record {
  name_size = refl;
  five_size = refl;
  flags_byte = omega arith;
  two_size = refl;
  hash_size = e;
  id_size = refl;
}

build_handshake-hello_bytes :
    (hash : Bytes) (ext : Bool)
    → length hash ≡ 20
    → build_handshake hash ext ≡ hello_bytes (own_hello hash ext)
unfolding build_handshake
build_handshake-hello_bytes hash ext e =
    let none_left : 20 - length hash ≡ 0 = omega arith in
    rw (none_left, append-nil, take_all 20 hash e) refl

-- Both ends of a connection between two clients of this program, with and without the extension bit.
pub build_handshake-read :
    (hash rest : Bytes) (ext : Bool)
    → length hash ≡ 20
    → (do_handshake (build_handshake hash ext ++ rest)
        ≡ ok (record { peer_id = own_id; extensions = ext }, rest))
      × (receive_handshake (build_handshake hash ext ++ rest)
          ≡ ok (record { info_hash = hash; peer_id = own_id }, rest))
build_handshake-read hash rest true e =
    rw (build_handshake-hello_bytes hash true e)
      (do_handshake-hello_bytes (own_hello hash true) rest (own_hello-IsHello hash true e))
build_handshake-read hash rest false e =
    rw (build_handshake-hello_bytes hash false e)
      (do_handshake-hello_bytes (own_hello hash false) rest (own_hello-IsHello hash false e))
