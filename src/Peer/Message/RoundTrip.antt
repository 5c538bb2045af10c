-- ===== src/Peer/Message/RoundTrip.antt =====
-- What `WriteMessage` sends, `ReadMessage` reads; and what it does with other input.
use bittorrent_client_go.Base.{
  ℕ, ◌+◌, ◌%◌, ◌<◌, ◌≡◌, ap, ◌∙◌, some, [], ◌∷◌, ◌++◌, Bytes, ◌==◌, length, length-append,
  take-append, drop-append, ok, err, u32_mod, u32_of, u32_of-put_u32, arith, false,
}
use bittorrent_client_go.Peer.Message.{
  end_of_stream, read_full, read_body, read_message, write_message,
}

pub read_full-append :
    (xs ys : Bytes) (n : ℕ) → n ≡ length xs → read_full n (xs ++ ys) ≡ ok (xs, ys)
unfolding read_full
read_full-append xs ys n e =
    rw (e, take-append xs ys, drop-append xs ys) (ground (arith, length-append xs ys))

pub read_full-short : (n : ℕ) (s : Bytes) → length s < n → read_full n s ≡ err end_of_stream
unfolding read_full
read_full-short n s h = ground arith

read_body-message :
    (n id : ℕ) (payload rest : Bytes)
    → n ≡ 1 + length payload
    → read_body n (id ∷ (payload ++ rest)) ≡ ok (record { id = id; payload = some payload }, rest)
unfolding read_body
read_body-message n id payload rest e =
    let full : read_full n (id ∷ (payload ++ rest)) ≡ ok (id ∷ payload, rest) =
      read_full-append (id ∷ payload) rest n (omega (arith, e)) in
    let some_bytes : (n == 0) ≡ false = ground arith in rw (some_bytes, full)

pub read_message-prefix :
    (a b c d : ℕ) (after : Bytes)
    → read_message (a ∷ b ∷ c ∷ d ∷ after) ≡ read_body (u32_of a b c d) after
unfolding read_message
read_message-prefix a b c d after = rw (read_full-append (a ∷ b ∷ c ∷ d ∷ []) after 4 (omega arith))

-- A message that is written, whatever follows it on the connection, is read back as it was, and what
-- follows is left, if its length fits the 32-bit length prefix.
pub read_message-write_message :
    (id : ℕ) (payload rest : Bytes)
    → 1 + length payload < u32_mod
    → read_message (write_message id payload ++ rest)
      ≡ ok (record { id = id; payload = some payload }, rest)
unfolding write_message
read_message-write_message id payload rest h =
    let n = (1 + length payload) % u32_mod in
    read_message-prefix _ _ _ _ (id ∷ (payload ++ rest))
    ∙ ap (λ m. read_body m (id ∷ (payload ++ rest))) (u32_of-put_u32 n (omega arith))
    ∙ read_body-message n id payload rest (omega arith)

-- A connection that ends before the length prefix does gives an error.
pub read_message_short : (s : Bytes) → length s < 4 → read_message s ≡ err end_of_stream
unfolding read_message
read_message_short s h = rw (read_full-short 4 s h)
